-- ===== src/Tolerance/Cleanup.antt =====
-- Clean-up and quarantine keep what bears their writes.
use safe_cloud.Prelude.{String, List, [], ◌∷◌, Option, none, some, Bool, true, refl}
use safe_cloud.Exec.{modify}
use safe_cloud.Exec.Triple.{Keeps, Keeps-modify, Keeps-bind, Keeps-if, Keeps-pure, keeps_rules}
use safe_cloud.Db.{Scan, World, set_cleanup_status, update_scan, get_scan}
use safe_cloud.Scanner.{
  Env, exists, overlay, mark_cleanup_failed_if_terminal, cleanup_not_done, remove_staging,
  cleanup_staging, after_move, move_to_quarantine, quarantine_staging,
  cleanup_or_quarantine_infected_staging,
}
use safe_cloud.Tolerance.Writes.{all_late, Tolerates, query-Keeps}

module _ {id : String} {Inv : World → Type 0} (t : Tolerates all_late id Inv) where
  overlay-Keeps : (current : Option Scan) → Keeps Inv (overlay id current)
  unfolding overlay all_late
  overlay-Keeps none = search keeps_rules
  overlay-Keeps (some current) = Keeps-if _ _ _ (t.update _ refl refl) (Keeps-pure tt)

  get_scan-Keeps : Keeps Inv (get_scan id)
  unfolding get_scan
  get_scan-Keeps = query-Keeps _ t.connects

  mark-Keeps : Keeps Inv (mark_cleanup_failed_if_terminal id)
  unfolding mark_cleanup_failed_if_terminal
  mark-Keeps = Keeps-bind _ _ get_scan-Keeps overlay-Keeps

  cleanup_not_done-Keeps : Keeps Inv (cleanup_not_done id)
  unfolding cleanup_not_done all_late
  cleanup_not_done-Keeps = Keeps-bind _ _ (t.update _ refl refl) (λ _. mark-Keeps)

  pub exists-Keeps : (dir : String) → Keeps Inv (exists dir)
  unfolding exists
  exists-Keeps dir = search keeps_rules

  paths-Keeps : (f : World → List String) → Keeps Inv (modify (λ w. record w { paths = f w }))
  paths-Keeps f = Keeps-modify _ (λ w h. t.outside w (f w) w.runs h)

  ok-Keeps : Keeps Inv (update_scan id (set_cleanup_status "OK" ∷ []))
  unfolding all_late
  ok-Keeps = t.update _ refl refl

  module _ (env : Env) where
    remove_staging-Keeps : (dir : String) (mark : Bool) → Keeps Inv (remove_staging env id dir mark)
    unfolding remove_staging
    remove_staging-Keeps dir mark =
        search (keeps_rules, cleanup_not_done-Keeps, paths-Keeps, ok-Keeps)

    pub cleanup_staging-Keeps :
        (dir : String) (mark : Bool) → Keeps Inv (cleanup_staging env id dir mark)
    unfolding cleanup_staging
    cleanup_staging-Keeps dir mark = Keeps-bind _ _ (exists-Keeps dir) (λ there.
        Keeps-if there _ _ (remove_staging-Keeps dir mark)
          (Keeps-if mark _ _ ok-Keeps (Keeps-pure tt)))

    after_move-Keeps : Keeps Inv (after_move env id)
    unfolding after_move all_late
    after_move-Keeps = Keeps-if _ _ _ (t.update _ refl refl) cleanup_not_done-Keeps

    pub quarantine_staging-Keeps : (dir : String) → Keeps Inv (quarantine_staging env id dir)
    unfolding quarantine_staging move_to_quarantine
    quarantine_staging-Keeps dir = Keeps-bind _ _ (exists-Keeps dir) (λ there.
        Keeps-if there _ _
          (Keeps-if _ _ _ (Keeps-bind _ _ (paths-Keeps _) (λ _. after_move-Keeps))
            cleanup_not_done-Keeps)
          ok-Keeps)

    pub cleanup_infected-Keeps :
        (dir : String) → Keeps Inv (cleanup_or_quarantine_infected_staging env id dir)
    unfolding cleanup_or_quarantine_infected_staging
    cleanup_infected-Keeps dir =
        Keeps-if _ _ _ (quarantine_staging-Keeps dir) (cleanup_staging-Keeps dir true)
