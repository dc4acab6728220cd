-- ===== src/Tests/Timers.antt =====
-- The loop of proc of hiredis::happ::cluster at a concrete state.
use hiredis_happ.Common.{ℕ, ◌≡◌, refl, some}
use hiredis_happ.Cluster.State.{Cluster, new_cluster}
use hiredis_happ.Cluster.Timers.{run_pending}
use hiredis_happ.Cluster.Placing.{IsSound}
use hiredis_happ.Cluster.Placing.Proceeding.{Ran, run_pending-Ran}
use hiredis_happ.Tests.Cluster.{lively, lively-IsCalm, lively-Formats, site, site-IsSound, filled}

-- The site at the time of the command 3.
abbrev later_site : Cluster
later_site = record site { timer = record (site.timer) { last_update_sec = 5 } }

later_site-IsSound : IsSound later_site
unfolding new_cluster
later_site-IsSound = record {
  there = site-IsSound.there;
  unmade = site-IsSound.unmade;
  no_cmd = site-IsSound.no_cmd;
  no_auth_fn = site-IsSound.no_auth_fn;
  no_password = site-IsSound.no_password;
}

run_pending-Ran_example :
    (n : ℕ) × (t : Cluster) × (run_pending lively 0 2 5 0 later_site ≡ some (n, t))
    × Ran later_site.timer.timer_pending 5 0 n later_site t
unfolding new_cluster
run_pending-Ran_example =
    run_pending-Ran lively lively-IsCalm lively-Formats 0 5 0 later_site refl refl
      later_site-IsSound (filled 3 refl, tt) (tt, tt)
