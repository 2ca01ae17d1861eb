-- ===== src/Qubic/Action/Triple.antt =====
-- What actions keep and give: every way out keeps the invariant, none is undefined, and a value has
-- the property.
use xdna_npu_miner.Prelude.{
  Outcome, ok, err, fault, if◌then◌else◌, Bool, true, false, ◌≡◌, ◌≢◌, refl,
}
use xdna_npu_miner.Qubic.Types.{Thrown}
use xdna_npu_miner.Qubic.Action.{
  Action, lift, throw_when, and_then, ◌>>=◌, or_else, try_catch, finally,
}

module _ {S : Type 0} where
  abbrev pub Holds : {A : Type 0} → (S → Type 0) → (A → Type 0) → Outcome Thrown A × S → Type 0
  Holds I Q (ok a, s) = Q a × I s
  Holds I Q (err thrown, s) = I s
  Holds I Q (fault, s) = ⊥

  abbrev pub Triple : {A : Type 0} → (S → Type 0) → Action S A → (A → Type 0) → Type 0
  Triple I action Q = (s : S) → I s → Holds I Q (action s)

  pub Holds-bind :
      {A B : Type 0} (I : S → Type 0) (Q : A → Type 0) (R : B → Type 0)
      (done : Outcome Thrown A × S) (rest : A → Action S B)
      → Holds I Q done
      → ((a : A) (s : S) → Q a → I s → Holds I R (rest a s))
      → Holds I R (and_then done rest)
  Holds-bind I Q R (ok a, s) rest h k = k a s h.0 h.1
  Holds-bind I Q R (err thrown, s) rest h k = h
  Holds-bind I Q R (fault, s) rest h k = absurd h

  pub Triple-bind :
      {A B : Type 0} (I : S → Type 0) (Q : A → Type 0) (R : B → Type 0) (first : Action S A)
      (rest : A → Action S B)
      → Triple I first Q
      → ((a : A) → Q a → Triple I (rest a) R)
      → Triple I (first >>= rest) R
  unfolding ◌>>=◌
  Triple-bind I Q R first rest h k s i =
      Holds-bind I Q R (first s) rest (h s i) (λ a t q j. k a q t j)

  -- A guard that throws, and what comes after it.
  pub Triple-throw_when :
      {A : Type 0} (I : S → Type 0) (R : A → Type 0) (b : Bool) (thrown : Thrown)
      (rest : Action S A)
      → (b ≡ false → Triple I rest R)
      → Triple I (throw_when b thrown >>= λ _. rest) R
  unfolding ◌>>=◌ throw_when
  Triple-throw_when I R true thrown rest k s i = i
  Triple-throw_when I R false thrown rest k s i = k refl s i

  pub Triple-catch :
      {A : Type 0} (I : S → Type 0) (Q : A → Type 0) (body : Action S A)
      (handler : Thrown → Action S A)
      → Triple I body Q
      → ((thrown : Thrown) → Triple I (handler thrown) Q)
      → Triple I (try_catch body handler) Q
  unfolding try_catch
  Triple-catch {A} I Q body handler h k s i = handled (body s) (h s i)
    where
      handled : (done : Outcome Thrown A × S) → Holds I Q done → Holds I Q (or_else done handler)
      handled (ok a, t) j = j
      handled (err thrown, t) j = k thrown t j
      handled (fault, t) j = j

  pub Triple-finally :
      {A : Type 0} (I : S → Type 0) (Q : A → Type 0) (body : Action S A) (last : S → S)
      → Triple I body Q
      → ((s : S) → I s → I (last s))
      → Triple I (finally body last) Q
  unfolding finally
  Triple-finally {A} I Q body last h k s i = closed (body s) (h s i)
    where
      closed : (done : Outcome Thrown A × S) → Holds I Q done → Holds I Q (done.0, last (done.1))
      closed (ok a, t) j = (j.0, k t j.1)
      closed (err thrown, t) j = k t j
      closed (fault, t) j = j

  pub Triple-lift :
      {A : Type 0} (I : S → Type 0) (outcome : Outcome Thrown A)
      → outcome ≢ fault
      → Triple I (lift outcome) (λ a. outcome ≡ ok a)
  unfolding lift
  Triple-lift I (ok a) h s i = (refl, i)
  Triple-lift I (err thrown) h s i = i
  Triple-lift I fault h s i = h refl

  pub Holds-throw_when :
      (I : S → Type 0) (b : Bool) (thrown : Thrown) (s : S)
      → I s
      → Holds I (λ _. Unit {0}) (throw_when b thrown s)
  unfolding throw_when
  Holds-throw_when I true thrown s i = i
  Holds-throw_when I false thrown s i = (tt, i)

  -- A branch on a computed value.
  pub Triple-branch :
      {A : Type 0} (I : S → Type 0) (Q : A → Type 0) (b : Bool) (x y : Action S A)
      → (b ≡ true → Triple I x Q)
      → (b ≡ false → Triple I y Q)
      → Triple I (elim b [ true ↦ x | false ↦ y ]) Q
  Triple-branch I Q true x y h k = h refl
  Triple-branch I Q false x y h k = k refl

  pub Holds-lift :
      {A : Type 0} (I : S → Type 0) (outcome : Outcome Thrown A)
      → outcome ≢ fault
      → (s : S) → I s
      → Holds I (λ _. Unit {0}) (lift outcome s)
  unfolding lift
  Holds-lift I (ok a) h s i = (tt, i)
  Holds-lift I (err thrown) h s i = i
  Holds-lift I fault h s i = h refl

  pub Triple-ok :
      {A : Type 0} (I : S → Type 0) (Q : A → Type 0) (a : A) → Q a → Triple I (lift (ok a)) Q
  unfolding lift
  Triple-ok I Q a q s i = (q, i)

  -- A step under an invariant of its own, which gives the one of what follows.
  pub Holds-seq :
      {A B : Type 0} (I J : S → Type 0) (Q : A → Type 0) (R : B → Type 0) (first : Action S A)
      (rest : A → Action S B) (s : S)
      → Holds I Q (first s)
      → ((s : S) → I s → J s)
      → ((a : A) (s : S) → Q a → I s → Holds J R (rest a s))
      → Holds J R ((first >>= rest) s)
  unfolding ◌>>=◌
  Holds-seq {A = A} {B = B} I J Q R first rest s h into k = ended (first s) h
    where
      ended : (done : Outcome Thrown A × S) → Holds I Q done → Holds J R (and_then done rest)
      ended (ok a, t) i = k a t i.0 i.1
      ended (err thrown, t) i = into t i
      ended (fault, t) i = i

  pub Holds-branch :
      {A : Type 0} (J : S → Type 0) (R : A → Type 0) (b : Bool) (x y : Action S A) (s : S)
      → (b ≡ true → Holds J R (x s))
      → (b ≡ false → Holds J R (y s))
      → Holds J R ((elim b as (λ _. Action S A) [ true ↦ x | false ↦ y ]) s)
  Holds-branch K R true x y s h k = h refl
  Holds-branch K R false x y s h k = k refl

  -- Where the outcome of the first step is known.
  pub Holds-err :
      {A B : Type 0} (J : S → Type 0) (R : B → Type 0) (first : Action S A) (rest : A → Action S B)
      (s t : S) (thrown : Thrown)
      → first s ≡ (err thrown, t)
      → J t
      → Holds J R ((first >>= rest) s)
  unfolding ◌>>=◌
  Holds-err J R first rest s t thrown e j = rw (e, Holds) j

  pub Holds-ok :
      {A B : Type 0} (J : S → Type 0) (R : B → Type 0) (first : Action S A) (rest : A → Action S B)
      (s t : S) (a : A)
      → first s ≡ (ok a, t)
      → Holds J R (rest a t)
      → Holds J R ((first >>= rest) s)
  unfolding ◌>>=◌
  Holds-ok J R first rest s t a e j = rw e j

  pub Triple-err :
      {A : Type 0} (I : S → Type 0) (Q : A → Type 0) (thrown : Thrown)
      → Triple I (lift {A = A} (err thrown)) Q
  unfolding lift
  Triple-err I Q thrown s i = i

  pub Triple-if :
      {A : Type 0} (I : S → Type 0) (Q : A → Type 0) (b : Bool) (x y : Action S A)
      → Triple I x Q
      → Triple I y Q
      → Triple I (if b then x else y) Q
  Triple-if I Q true x y h k = h
  Triple-if I Q false x y h k = k

  pub Triple-weaken :
      {A : Type 0} (I : S → Type 0) (Q R : A → Type 0) (action : Action S A)
      → ((a : A) → Q a → R a)
      → Triple I action Q
      → Triple I action R
  Triple-weaken {A = A} I Q R action more h s i = weaker (action s) (h s i)
    where
      weaker : (done : Outcome Thrown A × S) → Holds I Q done → Holds I R done
      weaker (ok a, t) j = (more a j.0, j.1)
      weaker (err thrown, t) j = j
      weaker (fault, t) j = j

  pub Holds-state :
      {A : Type 0} (I : S → Type 0) (Q : A → Type 0) (done : Outcome Thrown A × S)
      → Holds I Q done
      → I (done.1)
  Holds-state I Q (ok a, s) h = h.1
  Holds-state I Q (err thrown, s) h = h
  Holds-state I Q (fault, s) h = absurd h
