-- ===== src/Coordination/Service/Leases/Quiet.antt =====
-- Outcomes that change no lease and send no lease update.
use multi_controller.Prelude.{◌≡◌, sym, ◌∙◌, String, All-append}
use multi_controller.Registry.{Registry}
use multi_controller.Coordination.Service.{Service, Outcome, holder, ◌then_do◌}
use multi_controller.Coordination.Service.Leases.View.{view, view-append, view-AllOther, AllOther}
use multi_controller.Coordination.Service.Leases.Sound.{IsSound, quiet-IsSound}

pub record IsQuiet (s : Service) (o : Outcome) : Type 0 where
  pub leases : o.0.leases ≡ s.leases
  pub epoch : o.0.coordinator_epoch ≡ s.coordinator_epoch
  pub others : AllOther o.1

pub holder-leases : (s s' : Service) (t : String) → s'.leases ≡ s.leases → holder s' t ≡ holder s t
unfolding holder
holder-leases s s' t e = rw e

pub IsQuiet-IsSound :
    (s : Service) (r : Registry) (t : String) (o : Outcome) → IsQuiet s o → IsSound s r t o
IsQuiet-IsSound s r t o q =
    quiet-IsSound s r t o.0 o.1 (holder-leases s o.0 t q.leases) (λ u. rw q.leases u) q.others

pub then_do-IsQuiet :
    (s : Service) (o : Outcome) (next : Service → Outcome)
    → IsQuiet s o
    → ((s' : Service) → IsQuiet s' (next s'))
    → IsQuiet s (o then_do next)
then_do-IsQuiet s o next q more = record {
  leases = (more o.0).leases ∙ q.leases;
  epoch = (more o.0).epoch ∙ q.epoch;
  others = All-append _ o.1 (next o.0).1 q.others (more o.0).others;
}

-- What follows a sound outcome and is quiet keeps it sound.
pub then_do-IsSound :
    (s : Service) (r : Registry) (t : String) (o : Outcome) (next : Service → Outcome)
    → IsSound s r t o
    → ((s' : Service) → IsQuiet s' (next s'))
    → IsSound s r t (o then_do next)
then_do-IsSound s r t o next sound more = record {
  kept = λ a b h k. sound.kept a b h (sym same ∙ k);
  synced = λ on.
      view-append t (holder s t) o.1 (next o.0).1
      ∙ view-AllOther t (view t (holder s t) o.1) (next o.0).1 (more o.0).others
      ∙ sound.synced on
      ∙ sym same;
  unique = λ u. rw (more o.0).leases (sound.unique u);
}
  where
    same : holder (next o.0).0 t ≡ holder o.0 t
    same = holder-leases o.0 (next o.0).0 t (more o.0).leases
