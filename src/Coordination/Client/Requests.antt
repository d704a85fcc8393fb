-- ===== src/Coordination/Client/Requests.antt =====
-- control/coordination/client.py: the requests that wait for one answer, and what becomes of them.
pub mod Expired
use multi_controller.Prelude.{
  ℕ, ◌+◌, Bool, true, false, not, ◌&&◌, ◌||◌, Option, none, some, List, [], ◌∷◌, ◌++◌, String, ◌==◌,
  if◌then◌else◌, leb,
}
use multi_controller.Prelude.Int.{ℤ}
use multi_controller.Prelude.Text.{strip, text_of}
use multi_controller.Prelude.Dict
use multi_controller.Prelude.Dict.{Dict}
use multi_controller.Coordination.Protocol.{Share}
use multi_controller.Coordination.Client.{
  Client, OneShot, Effect, Outcome, node_list_change, remote_update_status, update_check_status,
  update_download_status, timeout_message,
}

-- In milliseconds.
abbrev pub one_shot_timeout_ms : ℕ
one_shot_timeout_ms = 4000

abbrev pub remote_update_request_timeout_ms : ℕ
remote_update_request_timeout_ms = 10000

abbrev pub update_check_timeout_ms : ℕ
update_check_timeout_ms = 45000

abbrev pub update_download_timeout_ms : ℕ
update_download_timeout_ms = 1800000

unfoldable pub one_shot_timeout_for_kind : String → ℕ
one_shot_timeout_for_kind kind =
    if kind == "remote_update"
    then remote_update_request_timeout_ms
    else if kind == "update_check"
    then update_check_timeout_ms
    else if kind == "update_download"
    then update_download_timeout_ms
    else one_shot_timeout_ms

unfoldable pub resolve_one_shot_request : Option String → Client → Client
resolve_one_shot_request request c =
    let id = strip (text_of request) in
    if id == ""
    then c
    else record c { pending_one_shot_requests = Dict.delete id c.pending_one_shot_requests }

unfoldable pub matches : String → String → OneShot → Bool
matches kind target p = p.kind == kind && (target == "" || p.target_id == target)

-- The first entry that matches goes.
unfoldable pub without_match : String → String → Dict OneShot → Dict OneShot
unfolding matches
without_match kind target [] = []
without_match kind target ((id, p) ∷ ps) =
    let rest = without_match kind target ps in if matches kind target p then ps else (id, p) ∷ rest

unfoldable pub resolve_matching_one_shot_request : String → String → Client → Client
unfolding without_match
resolve_matching_one_shot_request kind target c =
    let kind = strip kind in
    let target = strip target in
    if kind == "" then c else record c {
      pending_one_shot_requests = without_match kind target c.pending_one_shot_requests;
    }

unfoldable pub is_due : ℕ → OneShot → Bool
unfolding one_shot_timeout_for_kind
is_due now p = leb (p.started_at + one_shot_timeout_for_kind p.kind) now

-- A download that brought nothing.
abbrev pub no_share : Share
no_share = record {
  source_id = "";
  share_port = 0;
  share_id = "";
  share_token = "";
  sha256 = "";
  size_bytes = 0;
}

-- `_handle_one_shot_timeout`; the text that names the kind and the target is left out.
unfoldable pub handle_one_shot_timeout : ℤ → String → OneShot → Effect
handle_one_shot_timeout revision id p =
    let kind = strip p.kind in
    let target = strip p.target_id in
    if kind == "node_list"
    then node_list_change [] revision "timeout" id
    else if kind == "remote_update"
    then remote_update_status target "failed" "timeout" "응답 시간 초과" id "" "" "" ""
    else if kind == "update_check"
    then update_check_status "failed" "timeout" "?묐떟 ?쒓컙 珥덇낵" id none ""
    else if kind == "update_download"
    then update_download_status "failed" "timeout" "?묐떟 ?쒓컙 珥덇낵" id no_share
    else timeout_message kind target

unfoldable pub timeouts_of : ℤ → Dict OneShot → List Effect
unfolding handle_one_shot_timeout
timeouts_of revision [] = []
timeouts_of revision ((id, p) ∷ ps) =
    handle_one_shot_timeout revision id p ∷ timeouts_of revision ps

unfoldable pub expire_pending_one_shot_requests : ℕ → Client → Outcome
unfolding is_due timeouts_of
expire_pending_one_shot_requests now c = (
  record c {
    pending_one_shot_requests =
        Dict.retain (λ id p. not (is_due now p)) c.pending_one_shot_requests;
  },
  timeouts_of c.node_list_revision (Dict.retain (λ id p. is_due now p) c.pending_one_shot_requests),
)
