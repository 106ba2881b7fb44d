-- ===== src/Service/Handling/Rules.antt =====
-- Rules for the handlers of Service/Handler/World, one for each way to build one. They speak of a part
-- of the state, `look`.
use gtkaskpass_yubikey.Base.{◌≡◌, refl, Bool, true, false, Option, none, some, if◌then◌else◌}
use gtkaskpass_yubikey.Service.Handler.World.{
  State, Outcome, done, returned, exhausted, continue, Handler, pure, stop, out_of_fuel, ◌>>=◌,
}

module _ {W V : Type 0} (look : State W → V) (R X : V → Type 0) where
  -- `Q` holds at the end with a value, `R` at a return, `X` at the end of the fuel.
  abbrev pub Ends : {A : Type 0} → (A → V → Type 0) → Outcome A × State W → Type 0
  Ends Q (done a, s) = Q a (look s)
  Ends Q (returned, s) = R (look s)
  Ends Q (exhausted, s) = X (look s)

  pub record Ensures {A : Type 0} (P : V → Type 0) (m : Handler W A) (Q : A → V → Type 0)
      : Type 0 where
    pub at : (s : State W) → P (look s) → Ends Q (m s)

module _ {W V A : Type 0} {look : State W → V} {R X P : V → Type 0} {Q : A → V → Type 0} where
  pub Ensures-pure : {a : A} → ((v : V) → P v → Q a v) → Ensures look R X P (pure a) Q
  Ensures-pure h = record { at = λ s p. h (look s) p }

  pub Ensures-stop : ((v : V) → P v → R v) → Ensures look R X P stop Q
  Ensures-stop h = record { at = λ s p. h (look s) p }

  pub Ensures-out_of_fuel : ((v : V) → P v → X v) → Ensures look R X P out_of_fuel Q
  Ensures-out_of_fuel h = record { at = λ s p. h (look s) p }

  pub Ensures-if :
      (b : Bool) {m n : Handler W A}
      → (b ≡ true → Ensures look R X P m Q)
      → (b ≡ false → Ensures look R X P n Q)
      → Ensures look R X P (if b then m else n) Q
  Ensures-if true f g = f refl
  Ensures-if false f g = g refl

  -- A weaker precondition is given.
  pub Ensures-from :
      {P' : V → Type 0} {m : Handler W A}
      → ((v : V) → P v → P' v)
      → Ensures look R X P' m Q
      → Ensures look R X P m Q
  Ensures-from h e = record { at = λ s p. e.at s (h (look s) p) }

module _ {W V A : Type 0} {look : State W → V} {R X P : V → Type 0} {Q : A → V → Type 0}
    {H : Type 0} where
  -- A fact of the precondition that is not about the state
  pub Ensures-given :
      {m : Handler W A} → ((h : H) → Ensures look R X P m Q) → Ensures look R X (λ v. H × P v) m Q
  Ensures-given f = record { at = λ s p. (f p.0).at s p.1 }

module _ {W V A : Type 0} (look : State W → V) (R X : V → Type 0) {Q Q' : A → V → Type 0} where
  weaken-Ends :
      ((a : A) (v : V) → Q a v → Q' a v)
      → (r : Outcome A) (s : State W) → Ends look R X Q (r, s)
      → Ends look R X Q' (r, s)
  weaken-Ends h (done a) s q = h a (look s) q
  weaken-Ends h returned s q = q
  weaken-Ends h exhausted s q = q

module _ {W V A : Type 0} {look : State W → V} {R X : V → Type 0} {Q Q' : A → V → Type 0} where
  -- A stronger result is given.
  pub Ensures-to :
      {P : V → Type 0} {m : Handler W A}
      → ((a : A) (v : V) → Q a v → Q' a v)
      → Ensures look R X P m Q
      → Ensures look R X P m Q'
  Ensures-to {m = m} h e = record {
    at = λ s p. let (r, s') = m s in weaken-Ends look R X h r s' (e.at s p);
  }

module _ {W V A B : Type 0} {look : State W → V} {R X : V → Type 0} where
  bind-Ends :
      {Q : A → V → Type 0} {Q' : B → V → Type 0} (f : A → Handler W B)
      → ((a : A) → Ensures look R X (Q a) (f a) Q')
      → (r : Outcome A) (s : State W) → Ends look R X Q (r, s)
      → Ends look R X Q' (continue r f s)
  bind-Ends f g (done a) s q = (g a).at s q
  bind-Ends f g returned s q = q
  bind-Ends f g exhausted s q = q

  pub Ensures-bind :
      {P : V → Type 0} {Q : A → V → Type 0} {Q' : B → V → Type 0} {m : Handler W A}
      {f : A → Handler W B}
      → Ensures look R X P m Q
      → ((a : A) → Ensures look R X (Q a) (f a) Q')
      → Ensures look R X P (m >>= f) Q'
  unfolding ◌>>=◌
  Ensures-bind {m = m} {f = f} e g = record {
    at = λ s p. let (r, s') = m s in bind-Ends f g r s' (e.at s p);
  }

module _ {W V A B : Type 0} {look : State W → V} {R X : V → Type 0} {Q : B → V → Type 0} where
  pub Ensures-option :
      (P : Option A → V → Type 0) {m : Handler W B} {f : A → Handler W B}
      → Ensures look R X (P none) m Q
      → ((a : A) → Ensures look R X (P (some a)) (f a) Q)
      → (o : Option A) → Ensures look R X (P o) (elim o [ none ↦ m | some a ↦ f a ]) Q
  Ensures-option P g h none = g
  Ensures-option P g h (some a) = h a
