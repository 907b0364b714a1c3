-- ===== src/Kf/Metrics/Rates.antt =====
-- What the aggregator `max-rate` stores and publishes.
use mathlib.Core.List.{reverse}
use l3afd.Prelude.{
  ◌≡◌, refl, sym, ◌∙◌, ap, subst, ℕ, suc, ℤ, pos, abs_diff, true, some, List, [], ◌∷◌, ◌++◌, take,
  String, lookup, lookup-insert, nat_eq, nat_eq_iff, if◌then◌else◌,
}
use text.Mathlib.TextPositions.{eq_refl}
use l3afd.Os.{Os}
use l3afd.Stats.{whole}
use l3afd.Exec.{ok, pure, ◌>>=◌}
use l3afd.Kf.ElementList.{Ref}
use l3afd.Kf.State.{Sample, float64, MetricsBpfMap, State}
use l3afd.Kf.Access.{write}
use l3afd.Kf.Metrics.{
  new_ring, next_value, next_of, set_current, max_value, set_metrics_map, store_rate,
}
use l3afd.Kf.Metrics.Window.{push, push_all, IsRing, push-IsRing}
use l3afd.Kf.Metrics.Largest.{largest, max_value-window}

push_all-snoc :
    (ds : List ℤ) (d : ℤ) (ring : List Sample)
    → push_all ring (ds ++ (d ∷ [])) ≡ push d (push_all ring ds)
push_all-snoc [] d ring = refl
push_all-snoc (e ∷ ds) d ring = push_all-snoc ds d (push e ring)

push_all-IsRing : (ds : List ℤ) (ring : List Sample) → IsRing ring → IsRing (push_all ring ds)
push_all-IsRing [] ring h = h
push_all-IsRing (d ∷ ds) ring h = push_all-IsRing ds (push d ring) (push-IsRing d ring h)

next_of-ring : (ring : List Sample) → IsRing ring → next_of ring ≡ some (next_value ring)
next_of-ring [] h = absurd h
next_of-ring (x ∷ xs) h = refl

new-IsRing : (n : ℕ) → IsRing (new_ring (pos (suc n)))
unfolding new_ring
new-IsRing n = tt

module _ ⦃os : Os⦄ where
  metrics-set :
      (s : State os) (b : Ref) (map_key : String) (m : MetricsBpfMap)
      → lookup map_key ((set_metrics_map b map_key m s).1.bpfs b).metrics_bpf_maps ≡ some m
  unfolding set_metrics_map write
  metrics-set s b map_key m =
      let same : nat_eq b b ≡ true = (nat_eq_iff b b).1 refl in
      let written =
        lookup-insert map_key map_key m (s.bpfs b).metrics_bpf_maps
        ∙ ap (λ c. if c then some m else lookup map_key (s.bpfs b).metrics_bpf_maps)
            (eq_refl map_key) in
      rw same written

  stored :
      (s : State os) (b : Ref) (map_key : String) (m : MetricsBpfMap) (value max : ℤ)
      (current : List Sample)
      → next_of m.values ≡ some current
      → max_value (set_current (float64 (abs_diff value m.last_value)) current) ≡ some max
      → ((store_rate b map_key m value s).0 ≡ ok (whole max))
        × (lookup map_key ((store_rate b map_key m value s).1.bpfs b).metrics_bpf_maps
            ≡ some (record m {
              values = set_current (float64 (abs_diff value m.last_value)) current;
              last_value = value;
            }))
  unfolding store_rate set_metrics_map write ◌>>=◌ pure
  stored s b map_key m value max current e f = (rw (e, f), rw (e, f) (metrics-set s b map_key _))

  -- Where the ring of a metric holds the rates `ds`, in as many places as it was made with, a new value
  -- adds its rate, the distance to the last value, and what is published is the largest of the
  -- latest rates, as many as there are places. The value becomes the last value.
  pub store_rate-window :
      (s : State os) (b : Ref) (map_key : String) (m : MetricsBpfMap) (n : ℕ) (ds : List ℤ)
      (value : ℤ)
      → m.values ≡ push_all (new_ring (pos (suc n))) ds
      → let rates = ds ++ (abs_diff value m.last_value ∷ []) in
        ((store_rate b map_key m value s).0 ≡ ok (whole (largest (take (suc n) (reverse rates)))))
        × (lookup map_key ((store_rate b map_key m value s).1.bpfs b).metrics_bpf_maps
            ≡ some
                (record m { values = push_all (new_ring (pos (suc n))) rates; last_value = value }))
  store_rate-window s b map_key m n ds value held =
      let new = new_ring (pos (suc n)) in
      let d = abs_diff value m.last_value in
      let pushed : set_current (float64 d) (next_value m.values) ≡ push_all new (ds ++ (d ∷ [])) =
        ap (λ r. push d r) held ∙ sym (push_all-snoc ds d new) in
      let both =
        stored s b map_key m value (largest (take (suc n) (reverse (ds ++ (d ∷ [])))))
          (next_value m.values)
          (next_of-ring m.values (subst IsRing (sym held) (push_all-IsRing ds new (new-IsRing n))))
          (ap max_value pushed ∙ max_value-window n (ds ++ (d ∷ []))) in
      (
        both.0,
        both.1
            ∙ ap (λ (v : List Sample). some (record m { values = v; last_value = value })) pushed,
      )
