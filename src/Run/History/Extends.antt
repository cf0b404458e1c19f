-- ===== src/Run/History/Extends.antt =====
-- A list of Attempts after any changes: no Attempt is lost, moved or made another one.
use qarunner.Prelude.{
  List, [], ap, arith, last, length, refl, some, true, with_last, ◌++◌, ◌∙◌, ◌∷◌, ◌≡◌, ◌≤◌,
}
use qarunner.Values.Canonical.{Hash}
use qarunner.Attempt.{Attempt, is_terminal}
use qarunner.Attempt.Validity.{IsValid}
use qarunner.Attempt.History.Traces.{SameEnd, Stepped}

-- An Attempt later on: it keeps its identity, and its end once it has one.
pub record Keeps (a v : Attempt) : Type 0 where
  pub same_id : v.id ≡ a.id
  pub same_fence : v.fence ≡ a.fence
  pub same_worker : v.worker ≡ a.worker
  pub same_key : v.start_commit_key ≡ a.start_commit_key
  pub newer : a.version ≤ v.version
  pub end_stays : is_terminal a.state ≡ true → SameEnd a v

pub data Extends : List Attempt → List Attempt → Type 0 where
  grown : (ys : List Attempt) → Extends [] ys
  kept :
      {x y : Attempt} {xs ys : List Attempt} → Keeps x y → Extends xs ys → Extends (x ∷ xs) (y ∷ ys)

-- Each of the Attempts passes the checks of its constructor.
abbrev pub AllValid : Hash → List Attempt → Type 0
AllValid sha256 [] = Unit {0}
AllValid sha256 (a ∷ rest) = IsValid sha256 a × AllValid sha256 rest

Keeps-refl : (a : Attempt) → Keeps a a
Keeps-refl a = ground arith

SameEnd-trans : (a u v : Attempt) → SameEnd a u → SameEnd u v → SameEnd a v
SameEnd-trans a u v x y = ground arith

Keeps-trans : (a u v : Attempt) → Keeps a u → Keeps u v → Keeps a v
Keeps-trans a u v x y = record {
  same_id = y.same_id ∙ x.same_id;
  same_fence = y.same_fence ∙ x.same_fence;
  same_worker = y.same_worker ∙ x.same_worker;
  same_key = y.same_key ∙ x.same_key;
  newer = omega (arith, x.newer, y.newer);
  end_stays = λ e.
      let s = x.end_stays e in
      SameEnd-trans a u v s (y.end_stays (ap is_terminal s.same_state ∙ e));
}

pub Stepped-Keeps : (sha256 : Hash) (a v : Attempt) → Stepped sha256 a v → Keeps a v
Stepped-Keeps sha256 a v s = record {
  same_id = s.same_id;
  same_fence = s.same_fence;
  same_worker = s.same_worker;
  same_key = s.same_key;
  newer = s.newer;
  end_stays = s.end_stays;
}

pub Extends-refl : (xs : List Attempt) → Extends xs xs
Extends-refl [] = grown []
Extends-refl (x ∷ xs) = kept (Keeps-refl x) (Extends-refl xs)

pub Extends-trans : {xs ys zs : List Attempt} → Extends xs ys → Extends ys zs → Extends xs zs
Extends-trans {zs = zs} (grown ys) f = grown zs
Extends-trans (kept {x = x} {y = y} k e) (kept {y = z} l f) =
    kept (Keeps-trans x y z k l) (Extends-trans e f)

pub Extends-snoc : (xs : List Attempt) (a : Attempt) → Extends xs (xs ++ a ∷ [])
Extends-snoc [] a = grown (a ∷ [])
Extends-snoc (x ∷ xs) a = kept (Keeps-refl x) (Extends-snoc xs a)

pub Extends-with_last :
    (xs : List Attempt) (old a : Attempt)
    → last xs ≡ some old
    → Keeps old a
    → Extends xs (with_last xs a)
Extends-with_last [] old a l k = ground (arith, l)
Extends-with_last (x ∷ []) old a l k =
    let e : old ≡ x = ground (arith, l) in kept (rw e at k) (grown [])
Extends-with_last (x ∷ y ∷ ys) old a l k =
    kept (Keeps-refl x) (Extends-with_last (y ∷ ys) old a l k)

pub AllValid-snoc :
    (sha256 : Hash) (xs : List Attempt) (a : Attempt)
    → AllValid sha256 xs
    → IsValid sha256 a
    → AllValid sha256 (xs ++ a ∷ [])
AllValid-snoc sha256 [] a v w = (w, tt)
AllValid-snoc sha256 (x ∷ xs) a v w = (v.0, AllValid-snoc sha256 xs a v.1 w)

pub AllValid-last :
    (sha256 : Hash) (xs : List Attempt) (a : Attempt)
    → last xs ≡ some a
    → AllValid sha256 xs
    → IsValid sha256 a
AllValid-last sha256 [] a l v = ground (arith, l)
AllValid-last sha256 (x ∷ []) a l v = let e : a ≡ x = ground (arith, l) in rw (← e) at v.0
AllValid-last sha256 (x ∷ y ∷ ys) a l v = AllValid-last sha256 (y ∷ ys) a l v.1

pub AllValid-with_last :
    (sha256 : Hash) (xs : List Attempt) (a : Attempt)
    → AllValid sha256 xs
    → IsValid sha256 a
    → AllValid sha256 (with_last xs a)
AllValid-with_last sha256 [] a v w = (w, tt)
AllValid-with_last sha256 (x ∷ []) a v w = (w, tt)
AllValid-with_last sha256 (x ∷ y ∷ ys) a v w = (v.0, AllValid-with_last sha256 (y ∷ ys) a v.1 w)

pub length-with_last :
    (xs : List Attempt) (old a : Attempt) → last xs ≡ some old → length (with_last xs a) ≡ length xs
length-with_last [] old a l = ground (arith, l)
length-with_last (x ∷ []) old a l = refl
length-with_last (x ∷ y ∷ ys) old a l =
    let rest = length-with_last (y ∷ ys) old a l in ground (arith, rest)
