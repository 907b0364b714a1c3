-- ===== src/Exec/After.antt =====
-- What holds after two statements in a row: whatever the outcome, or where a value is returned.
use l3afd.Prelude.{◌≡◌, refl, String, Option, none, some, Bool, true, false, if◌then◌else◌}
use l3afd.Exec.{
  check, Exec, Result, ok, err, panic, blocked, pure, blocks, fail, blocks, gets, modify, deref,
  some_or, wrap, try, attempt, on_option, ◌>>=◌,
}

module _ {S A : Type 0} where
  abbrev pub WhenOk : (A → S → Type 0) → Result A → S → Type 0
  WhenOk Q (ok a) s = Q a s
  WhenOk Q (err e) s = Unit
  WhenOk Q panic s = Unit
  WhenOk Q blocked s = Unit

  -- If `m` returns a value from `s`, it and the state that it leaves are in `Q`.
  pub record Ensures (m : Exec S A) (s : S) (Q : A → S → Type 0) : Type 0 where
    pub at : WhenOk Q (m s).0 (m s).1

  itself : (r : Result A) (t : S) → WhenOk (λ a u. (r ≡ ok a) × (t ≡ u)) r t
  itself (ok a) t = (refl, refl)
  itself (err e) t = tt
  itself panic t = tt
  itself blocked t = tt

  -- What is returned is what is returned.
  pub self-Ensures : (m : Exec S A) (s : S) → Ensures m s (λ a t. ((m s).0 ≡ ok a) × ((m s).1 ≡ t))
  self-Ensures m s = record { at = itself (m s).0 (m s).1 }

  weaken :
      (P Q : A → S → Type 0) (r : Result A) (t : S)
      → ((a : A) (u : S) → P a u → Q a u)
      → WhenOk P r t
      → WhenOk Q r t
  weaken P Q (ok a) t f p = f a t p
  weaken P Q (err e) t f p = tt
  weaken P Q panic t f p = tt
  weaken P Q blocked t f p = tt

  pub mono-Ensures :
      (P Q : A → S → Type 0) (m : Exec S A) (s : S)
      → Ensures m s P
      → ((a : A) (u : S) → P a u → Q a u)
      → Ensures m s Q
  mono-Ensures P Q m s p f = record { at = weaken P Q (m s).0 (m s).1 f p.at }

  pub pure-Ensures : (a : A) (s : S) (Q : A → S → Type 0) → Q a s → Ensures (pure a) s Q
  unfolding pure
  pure-Ensures a s Q q = record { at = q }

  pub fail-Ensures : (e : String) (s : S) (Q : A → S → Type 0) → Ensures (fail e) s Q
  unfolding fail
  fail-Ensures e s Q = record { at = tt }

  pub blocks-Ensures : (s : S) (Q : A → S → Type 0) → Ensures blocks s Q
  unfolding blocks
  blocks-Ensures s Q = record { at = tt }

  pub Ensures-ok :
      (m : Exec S A) (s t : S) (a : A) (Q : A → S → Type 0)
      → Ensures m s Q
      → m s ≡ (ok a, t)
      → Q a t
  Ensures-ok m s t a Q h e = l3afd.Prelude.subst (λ (p : Result A × S). WhenOk Q p.0 p.1) e h.at

  anything : (r : Result A) (t : S) → WhenOk (λ a u. Unit {0}) r t
  anything (ok a) t = tt
  anything (err e) t = tt
  anything panic t = tt
  anything blocked t = tt

module _ {S A B : Type 0} where
  continue-after :
      (P : S → Type 0) (r : Result B) (f : B → Exec S A) (t : S)
      → P t
      → ((b : B) → r ≡ ok b → P (f b t).1)
      → P (l3afd.Exec.continue r f t).1
  continue-after P (ok b) f t p k = k b refl
  continue-after P (err e) f t p k = p
  continue-after P panic f t p k = p
  continue-after P blocked f t p k = p

  -- `P` holds of the state after `m`, and after `f` where that is reached.
  pub bind-after :
      (P : S → Type 0) (m : Exec S B) (f : B → Exec S A) (s : S)
      → P (m s).1
      → ((b : B) → (m s).0 ≡ ok b → P (f b (m s).1).1)
      → P ((m >>= f) s).1
  unfolding ◌>>=◌
  bind-after P m f s p k = continue-after P (m s).0 f (m s).1 p k

  continue-WhenOk :
      (Q : A → S → Type 0) (R : B → S → Type 0) (r : Result B) (f : B → Exec S A) (t : S)
      → WhenOk R r t
      → ((b : B) → R b t → Ensures (f b) t Q)
      → WhenOk Q (l3afd.Exec.continue r f t).0 (l3afd.Exec.continue r f t).1
  continue-WhenOk Q R (ok b) f t p k = (k b p).at
  continue-WhenOk Q R (err e) f t p k = tt
  continue-WhenOk Q R panic f t p k = tt
  continue-WhenOk Q R blocked f t p k = tt

  pub bind-Ensures :
      (Q : A → S → Type 0) (R : B → S → Type 0) (m : Exec S B) (f : B → Exec S A) (s : S)
      → Ensures m s R
      → ((b : B) (t : S) → R b t → Ensures (f b) t Q)
      → Ensures (m >>= f) s Q
  unfolding ◌>>=◌
  bind-Ensures Q R m f s p k = record {
    at = continue-WhenOk Q R (m s).0 f (m s).1 p.at (λ b. k b (m s).1);
  }

  -- Where nothing is known of `m`.
  pub then-Ensures :
      (Q : A → S → Type 0) (m : Exec S B) (f : B → Exec S A) (s : S)
      → ((b : B) (t : S) → Ensures (f b) t Q)
      → Ensures (m >>= f) s Q
  then-Ensures Q m f s k =
      bind-Ensures Q (λ b u. Unit {0}) m f s (record { at = anything (m s).0 (m s).1 })
        (λ b t _. k b t)

module _ {S A : Type 0} where
  always-WhenOk : (P : S → Type 0) (r : Result A) (t : S) → P t → WhenOk (λ _ u. P u) r t
  always-WhenOk P (ok a) t p = p
  always-WhenOk P (err e) t p = tt
  always-WhenOk P panic t p = tt
  always-WhenOk P blocked t p = tt

  pub always-Ensures :
      (m : Exec S A) (s : S) (P : S → Type 0) → P (m s).1 → Ensures m s (λ _ t. P t)
  always-Ensures m s P p = record { at = always-WhenOk P (m s).0 (m s).1 p }

  both :
      (P : S → Type 0) (Q : A → S → Type 0) (r : Result A) (t : S)
      → P t
      → WhenOk Q r t
      → WhenOk (λ a u. P u × Q a u) r t
  both P Q (ok a) t p q = (p, q)
  both P Q (err e) t p q = tt
  both P Q panic t p q = tt
  both P Q blocked t p q = tt

  pub both-Ensures :
      (m : Exec S A) (s : S) (P : S → Type 0) {Q : A → S → Type 0}
      → P (m s).1
      → Ensures m s Q
      → Ensures m s (λ a t. P t × Q a t)
  both-Ensures m s P {Q = Q} p q = record { at = both P Q (m s).0 (m s).1 p q.at }

  wrap-WhenOk :
      (e : String) (Q : A → S → Type 0) (r : Result A) (t : S)
      → WhenOk Q r t
      → WhenOk Q (l3afd.Exec.rename_error e r) t
  wrap-WhenOk e Q (ok a) t p = p
  wrap-WhenOk e Q (err _) t p = tt
  wrap-WhenOk e Q panic t p = tt
  wrap-WhenOk e Q blocked t p = tt

  pub wrap-Ensures :
      (e : String) (m : Exec S A) (s : S) (Q : A → S → Type 0)
      → Ensures m s Q
      → Ensures (wrap e m) s Q
  unfolding wrap
  wrap-Ensures e m s Q p = record { at = wrap-WhenOk e Q (m s).0 (m s).1 p.at }

  pub if-Ensures :
      (b : Bool) (m n : Exec S A) (s : S) (Q : A → S → Type 0)
      → (b ≡ true → Ensures m s Q)
      → (b ≡ false → Ensures n s Q)
      → Ensures (if b then m else n) s Q
  if-Ensures true m n s Q p q = p refl
  if-Ensures false m n s Q p q = q refl

  pub some_or-Ensures :
      (o : Option A) (e : String) (s : S) → Ensures (some_or o e) s (λ a t. (o ≡ some a) × (s ≡ t))
  unfolding pure fail
  some_or-Ensures none e s = record { at = tt }
  some_or-Ensures (some a) e s = record { at = (refl, refl) }

module _ {S : Type 0} where
  pub check-Ensures :
      (b : Bool) (e : String) (s : S) → Ensures (check b e) s (λ _ t. (b ≡ true) × (s ≡ t))
  unfolding pure fail
  check-Ensures true e s = record { at = (refl, refl) }
  check-Ensures false e s = record { at = tt }

module _ {S A B : Type 0} where
  pub gets-Ensures :
      (Q : A → S → Type 0) (f : S → B) (k : B → Exec S A) (s : S)
      → Ensures (k (f s)) s Q
      → Ensures (gets f >>= k) s Q
  unfolding gets ◌>>=◌
  gets-Ensures Q f k s h = record { at = h.at }
