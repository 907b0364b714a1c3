-- ===== src/Kf/Metrics/Averages.antt =====
-- The aggregator `avg` never returns.
use l3afd.Prelude.{
  subst, ◌≡◌, refl, ap, ℕ, ◌+◌, ℤ, pos, ◌+ℤ◌, true, false, String, Option, none, some, List, [],
  ◌∷◌, ◌++◌, lookup, ◌==◌,
}
use l3afd.Os.{Os}
use l3afd.Exec.{panic, pure, panics, deref, on_option, ◌>>=◌}
use l3afd.Kf.ElementList.{Ref}
use l3afd.Kf.State.{Sample, unset, float64, int64, MetricsBpfMap, State}
use l3afd.Kf.Access.{call, read, write}
use l3afd.Kf.Metrics.{
  next_value, next_of, set_current, sum_from, avg_value, metrics_map, set_metrics_map,
  store_average, aggregate, get_value,
}

-- One of the values is an int64.
abbrev HasInt : List Sample → Type 0
HasInt [] = ⊥
HasInt (unset ∷ xs) = HasInt xs
HasInt (float64 d ∷ xs) = HasInt xs
HasInt (int64 d ∷ xs) = Unit

sum_from-HasInt : (sum : ℤ) (n : ℕ) (xs : List Sample) → HasInt xs → sum_from sum n xs ≡ none
unfolding sum_from
sum_from-HasInt sum n [] h = absurd h
sum_from-HasInt sum n (unset ∷ xs) h = sum_from-HasInt sum n xs h
sum_from-HasInt sum n (float64 d ∷ xs) h = sum_from-HasInt (sum +ℤ d) (n + 1) xs h
sum_from-HasInt sum n (int64 d ∷ xs) h = refl

HasInt-right : (xs ys : List Sample) → HasInt ys → HasInt (xs ++ ys)
HasInt-right [] ys h = h
HasInt-right (unset ∷ xs) ys h = HasInt-right xs ys h
HasInt-right (float64 d ∷ xs) ys h = HasInt-right xs ys h
HasInt-right (int64 d ∷ xs) ys h = tt

HasInt-left : (xs ys : List Sample) → HasInt xs → HasInt (xs ++ ys)
HasInt-left [] ys h = absurd h
HasInt-left (unset ∷ xs) ys h = HasInt-left xs ys h
HasInt-left (float64 d ∷ xs) ys h = HasInt-left xs ys h
HasInt-left (int64 d ∷ xs) ys h = tt

-- Moving on keeps the values.
next_value-HasInt : (xs : List Sample) → HasInt xs → HasInt (next_value xs)
unfolding next_value
next_value-HasInt [] h = absurd h
next_value-HasInt (unset ∷ xs) h = HasInt-left xs (unset ∷ []) h
next_value-HasInt (float64 d ∷ xs) h = HasInt-left xs (float64 d ∷ []) h
next_value-HasInt (int64 d ∷ xs) h = HasInt-right xs (int64 d ∷ []) tt

avg_value-HasInt : (xs : List Sample) → HasInt xs → avg_value xs ≡ none
unfolding avg_value
avg_value-HasInt [] h = refl
avg_value-HasInt (x ∷ xs) h =
    sum_from-HasInt (pos 0) 0 (next_value (x ∷ xs)) (next_value-HasInt (x ∷ xs) h)

module _ ⦃os : Os⦄ where
  averaged :
      (s : State os) (b : Ref) (map_key : String) (m : MetricsBpfMap) (value : ℤ)
      (o : Option (List Sample))
      → ((values : List Sample) → o ≡ some values → avg_value values ≡ none)
      → ((deref o >>= λ values.
            (set_metrics_map b map_key (record m { values = values }) >>= λ _.
            deref (avg_value values)))
          s).0
        ≡ panic
  unfolding set_metrics_map write panics pure ◌>>=◌
  averaged s b map_key m value none h = refl
  averaged s b map_key m value (some values) h = rw (h values refl)

  stored-HasInt :
      (value : ℤ) (xs values : List Sample)
      → next_of (set_current (int64 value) xs) ≡ some values
      → avg_value values ≡ none
  unfolding set_current
  stored-HasInt value [] values h = cc
  stored-HasInt value (x ∷ xs) values h =
      let e : next_value (int64 value ∷ xs) ≡ values = cc in
      subst (λ l. avg_value l ≡ none) e
        (avg_value-HasInt _ (next_value-HasInt (int64 value ∷ xs) tt))

  store_average-panics :
      (s : State os) (b : Ref) (map_key : String) (m : MetricsBpfMap) (value : ℤ)
      → (store_average b map_key m value s).0 ≡ panic
  unfolding store_average
  store_average-panics s b map_key m value =
      averaged s b map_key m value (next_of (set_current (int64 value) m.values))
        (λ values e. stored-HasInt value m.values values e)

  aggregate-panics :
      (s : State os) (b : Ref) (map_key : String) (m : MetricsBpfMap) (value : ℤ)
      → m.aggregator ≡ "avg"
      → (aggregate b map_key m value s).0 ≡ panic
  unfolding aggregate
  aggregate-panics s b map_key m value e =
      let scalar : (m.aggregator == "scalar") ≡ false = ap (λ a. a == "scalar") e in
      let rate : (m.aggregator == "max-rate") ≡ false = ap (λ a. a == "max-rate") e in
      let average : (m.aggregator == "avg") ≡ true = ap (λ a. a == "avg") e in
      rw (scalar, rate, average) (store_average-panics s b map_key m value)

  -- GetValue panics for every metric with the aggregator `avg` as soon as the map can be read, whatever
  -- its ring holds: the value is stored as an int64, and AvgValue asserts that it is a float64.
  pub get_value-avg_panics :
      (s : State os) (b : Ref) (map_key : String) (m : MetricsBpfMap) (fd : ℕ) (value : ℤ)
      → lookup map_key (s.bpfs b).metrics_bpf_maps ≡ some m
      → m.aggregator ≡ "avg"
      → (os.map_from_id m.bpf_map.map_id s.world).0 ≡ some fd
      → (os.map_lookup fd m.key (os.map_from_id m.bpf_map.map_id s.world).1).0 ≡ some value
      → (get_value b map_key s).0 ≡ panic
  unfolding get_value metrics_map read call on_option pure ◌>>=◌
  get_value-avg_panics s b map_key m fd value there average opens found =
      rw (there, opens, there, found) (aggregate-panics _ b map_key m value average)
