-- ===== src/Resources.antt =====
-- What programs take from the system and give back, and what a part of a program that ends gives back.
use eltex_practice.Base.{
  ℕ, Bytes, false, if◌then◌else◌, ◌≡◌, refl, Bool, true, false, List, [], ◌∷◌, ◌++◌, Option, none,
  some, ◌⊎◌, inl, inr, if◌then◌else◌, All, map,
}

-- What a process takes from the system and gives back: `frees` of a descriptor is `close`, of the name of
-- a pipe or a queue its `unlink`, of the child `waitpid`, of memory `free`, and of
-- what a kernel module sets up the call that takes it down.
pub data Resource : Type 0 where
  descriptor : ℕ → Resource
  named : Bytes → Resource
  child memory timer kobject attribute : Resource

pub data Effect : Type 0 where
  takes frees : Resource → Effect

-- A failure with its effects, and effects in front of a part.
abbrev pub failing : List Effect → Option Bool × List Effect
failing effects = (some false, effects)

abbrev pub before : List Effect → Option Bool × List Effect → Option Bool × List Effect
before effects r = (r.0, effects ++ r.1)

-- The resource is given back.
abbrev pub Frees : Resource → List Effect → Type 0
Frees r [] = ⊥
Frees r (takes q ∷ es) = Frees r es
Frees r (frees q ∷ es) = (q ≡ r) ⊎ Frees r es

-- Everything that is taken is given back later.
abbrev pub Released : List Effect → Type 0
Released [] = Unit {0}
Released (takes r ∷ es) = Frees r es × Released es
Released (frees r ∷ es) = Released es

-- A part of the program that ends, gives back what it takes, and also what was open before.
pub record Settles (held : List Resource) (r : Option Bool × List Effect) : Type 0 where
  pub ended : (ok : Bool) × (r.0 ≡ some ok)
  pub freed : All (λ q. Frees q r.1) held
  pub released : Released r.1

-- A property of both cases of a test, and of both cases of an answer.
pub if_both {ℓ} :
    {A : Type ℓ} (P : A → Type 0) (b : Bool) (x y : A) → P x → P y → P (if b then x else y)
if_both P true x y h k = h
if_both P false x y h k = k

pub Option-both {ℓ κ} :
    {A : Type ℓ} {B : Type κ} (P : B → Type 0) (o : Option A) (x : B) (f : A → B)
    → P x
    → ((a : A) → P (f a))
    → P (elim o [ none ↦ x | some a ↦ f a ])
Option-both P none x f h k = h
Option-both P (some a) x f h k = k a

Frees-closes :
    (q : Resource) (es : List Effect) (held : List Resource)
    → All (λ o. Frees o es) held
    → All (λ o. Frees o (frees q ∷ es)) held
Frees-closes q es [] h = tt
Frees-closes q es (o ∷ held) (h, hs) = (inr h, Frees-closes q es held hs)

pub Settles-closes :
    (q : Resource) (held : List Resource) (r : Option Bool × List Effect)
    → Settles held r
    → Settles (q ∷ held) (before (frees q ∷ []) r)
Settles-closes q held r s = record {
  ended = s.ended;
  freed = (inl refl, Frees-closes q r.1 held s.freed);
  released = s.released;
}

-- Giving back exactly what is held.
pub Settles-all : (held : List Resource) (ok : Bool) → Settles held (some ok, map frees held)
Settles-all [] ok = record { ended = (ok, refl); freed = tt; released = tt }
Settles-all (q ∷ held) ok = Settles-closes q held (some ok, map frees held) (Settles-all held ok)

-- A clean-up behind it.
Frees-append : (q : Resource) (es fs : List Effect) → Frees q fs → Frees q (es ++ fs)
Frees-append q [] fs h = h
Frees-append q (takes r ∷ es) fs h = Frees-append q es fs h
Frees-append q (frees r ∷ es) fs h = inr (Frees-append q es fs h)

Frees-append_left : (q : Resource) (es fs : List Effect) → Frees q es → Frees q (es ++ fs)
Frees-append_left q [] fs h = absurd h
Frees-append_left q (takes r ∷ es) fs h = Frees-append_left q es fs h
Frees-append_left q (frees r ∷ es) fs (inl e) = inl e
Frees-append_left q (frees r ∷ es) fs (inr h) = inr (Frees-append_left q es fs h)

Released-append : (es fs : List Effect) → Released es → Released fs → Released (es ++ fs)
Released-append [] fs h k = k
Released-append (takes q ∷ es) fs (h, hs) k =
    (Frees-append_left q es fs h, Released-append es fs hs k)
Released-append (frees q ∷ es) fs h k = Released-append es fs h k

All-Frees-append :
    (own held : List Resource) (es fs : List Effect)
    → All (λ q. Frees q es) own
    → All (λ q. Frees q fs) held
    → All (λ q. Frees q (es ++ fs)) (own ++ held)
All-Frees-append [] [] es fs h k = tt
All-Frees-append [] (q ∷ held) es fs h (k, ks) =
    (Frees-append q es fs k, All-Frees-append [] held es fs tt ks)
All-Frees-append (q ∷ own) held es fs (h, hs) k =
    (Frees-append_left q es fs h, All-Frees-append own held es fs hs k)

pub Settles-append :
    (own held : List Resource) (r : Option Bool × List Effect) (fs : List Effect)
    → Settles own r
    → All (λ q. Frees q fs) held
    → Released fs
    → Settles (own ++ held) (r.0, r.1 ++ fs)
Settles-append own held r fs s k l = record {
  ended = s.ended;
  freed = All-Frees-append own held r.1 fs s.freed k;
  released = Released-append r.1 fs s.released l;
}

-- What is taken is open behind it.
pub Settles-takes :
    (q : Resource) (held : List Resource) (r : Option Bool × List Effect)
    → Settles (q ∷ held) r
    → Settles held (before (takes q ∷ []) r)
Settles-takes q held r s = record {
  ended = s.ended;
  freed = s.freed.1;
  released = (s.freed.0, s.released);
}
