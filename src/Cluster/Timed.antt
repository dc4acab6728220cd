-- ===== src/Cluster/Timed.antt =====
-- What the steps of hiredis::happ::cluster do to its timer: commands are added behind those that wait, with the interval
-- from the timer's time on.
use hiredis_happ.Common.{
  ltb, ◌||◌, ◌+◌, ◌≡◌, refl, sym, ap, ◌∙◌, true, [], ◌++◌, List, All, All-append, append_assoc,
  append-nil, ◌∷◌,
}
use hiredis_happ.Cluster.State.{Cluster, Delay, is_timer_available}

-- A command that is handed to the timer.
pub record IsPushed (s : Cluster) (d : Delay) : Type 0 where
  pub available : is_timer_available s ≡ true
  pub sec_after : d.sec ≡ s.timer.last_update_sec + s.conf.timer_interval_sec
  pub usec_after : d.usec ≡ s.timer.last_update_usec + s.conf.timer_interval_usec

-- From `s` to `t`, commands are handed to the timer, and its time and the configuration stay.
pub record Timed (s t : Cluster) : Type 0 where
  pub new : List Delay
  pub grows : t.timer.timer_pending ≡ s.timer.timer_pending ++ new
  pub pushed : All (IsPushed s) new
  pub sec_same : t.timer.last_update_sec ≡ s.timer.last_update_sec
  pub usec_same : t.timer.last_update_usec ≡ s.timer.last_update_usec
  pub conf_same : t.conf ≡ s.conf

pub Timed-same :
    (s t : Cluster)
    → t.timer.timer_pending ≡ s.timer.timer_pending
    → t.timer.last_update_sec ≡ s.timer.last_update_sec
    → t.timer.last_update_usec ≡ s.timer.last_update_usec
    → t.conf ≡ s.conf
    → Timed s t
Timed-same s t e sec usec conf = record {
  new = [];
  grows = e ∙ sym (append-nil s.timer.timer_pending);
  pushed = tt;
  sec_same = sec;
  usec_same = usec;
  conf_same = conf;
}

IsPushed-back : (s t : Cluster) (d : Delay) → Timed s t → IsPushed t d → IsPushed s d
unfolding is_timer_available
IsPushed-back s t d g p = record {
  available =
      ap (λ c. ltb 0 c.timer_interval_sec || ltb 0 c.timer_interval_usec) (sym g.conf_same)
      ∙ p.available;
  sec_after = rw (p.sec_after, g.sec_same, g.conf_same) refl;
  usec_after = rw (p.usec_after, g.usec_same, g.conf_same) refl;
}

all-IsPushed-back :
    (s t : Cluster) (l : List Delay) → Timed s t → All (IsPushed t) l → All (IsPushed s) l
all-IsPushed-back s t [] g h = tt
all-IsPushed-back s t (d ∷ l) g h = (IsPushed-back s t d g h.0, all-IsPushed-back s t l g h.1)

pub Timed-trans : {s t u : Cluster} → Timed s t → Timed t u → Timed s u
Timed-trans {s} {t} {u} g h = record {
  new = g.new ++ h.new;
  grows = h.grows ∙ ap (λ r. r ++ h.new) g.grows ∙ append_assoc s.timer.timer_pending g.new h.new;
  pushed = All-append (IsPushed s) g.new h.new g.pushed (all-IsPushed-back s t h.new g h.pushed);
  sec_same = h.sec_same ∙ g.sec_same;
  usec_same = h.usec_same ∙ g.usec_same;
  conf_same = h.conf_same ∙ g.conf_same;
}
