-- ===== src/HashTable/Runs.antt =====
-- A hash table against a finite map, over any sequence of operations.
use mathlib.Core.Path.{ap₂}
use notbit.Common.{
  ◌≡◌, ◌≢◌, refl, sym, ◌∙◌, ap, ℕ, Bytes, List, [], ◌∷◌, All, Bool, Bool-cases, Option-cases, inl,
  inr, true, false, Option, none, some, some_injective, ◌==◌, ==_iff, bytes_eq, if◌then◌else◌,
}
use notbit.HashTable.{Value, Chain, Table, new, get, set_value, remove}
use notbit.HashTable.Chains.{get-All}
use notbit.HashTable.Index.{bucket}
use notbit.HashTable.Lookup.{IsValid}
use notbit.HashTable.Removing.{get-remove, remove-IsValid, remove_unfound}
use notbit.HashTable.Setting.{get-set_value, set_value-IsValid, new-IsValid, get-new}
use notbit.HashTable.Unlink.{Determines}

-- A call, with a pointer or a hash, and what it returns.
pub data Call : Type 0 where
  setting : ℕ → Call
  removing : ℕ → Call
  getting : Bytes → Call

pub data Answer : Type 0 where
  replaced : Option Value → Answer
  removed : Bool → Answer
  found : Option Value → Answer

abbrev pub Model : Type 0
Model = Bytes → Option Value

abbrev points_to : ℕ → Option Value → Bool
points_to p none = false
points_to p (some v) = v.pointer == p

-- The hash that stands where a pointer points to.
module _ (hash_of : ℕ → Bytes) where
  abbrev pub value_at : ℕ → Value
  value_at p = record { pointer = p; hash = hash_of p }

  -- The table.
  abbrev pub call : Call → Table → Answer × Table
  call (setting p) t = let (old, t') = set_value t (value_at p) in (replaced old, t')
  call (removing p) t = let (was, t') = remove t (value_at p) in (removed was, t')
  call (getting hash) t = (found (get t hash), t)

  abbrev pub answers : List Call → Table → List Answer
  answers [] t = []
  answers (c ∷ calls) t = let (a, t') = call c t in a ∷ answers calls t'

  -- The map: a pointer is put at its hash, and taken away from there if it is the one that is there.
  abbrev pub put_at : ℕ → Model → Model
  put_at p m hash = if bytes_eq hash (hash_of p) then some (value_at p) else m hash

  abbrev pub take_from : ℕ → Model → Model
  take_from p m hash =
      if points_to p (m (hash_of p))
      then (if bytes_eq hash (hash_of p) then none else m hash)
      else m hash

  abbrev pub model_call : Call → Model → Answer × Model
  model_call (setting p) m = (replaced (m (hash_of p)), put_at p m)
  model_call (removing p) m = (removed (points_to p (m (hash_of p))), take_from p m)
  model_call (getting hash) m = (found (m hash), m)

  abbrev pub model_answers : List Call → Model → List Answer
  model_answers [] m = []
  model_answers (c ∷ calls) m = let (a, m') = model_call c m in a ∷ model_answers calls m'

  -- The table has what the map has, and each value at its own hash.
  record Refines (t : Table) (m : Model) : Type 0 where
    valid : IsValid t
    same : (hash : Bytes) → get t hash ≡ m hash
    own : (hash : Bytes) (v : Value) → m hash ≡ some v → v.hash ≡ hash_of v.pointer

  -- What is in a chain is found at its hash, which its pointer determines.
  in_chain :
      (t : Table) (m : Model) (hash : Bytes)
      → Refines t m
      → All
          (λ (e : Value). (get t e.hash ≡ some e) × (e.hash ≡ hash_of e.pointer))
          (bucket t.size t.entries hash)
  in_chain t m hash r = go (bucket t.size t.entries hash) (get-All t hash r.valid)
    where
      go :
          (chain : Chain)
          → All (λ (e : Value). get t e.hash ≡ some e) chain
          → All (λ (e : Value). (get t e.hash ≡ some e) × (e.hash ≡ hash_of e.pointer)) chain
      go [] h = tt
      go (e ∷ chain) h = ((h.0, r.own e.hash e (sym (r.same e.hash) ∙ h.0)), go chain h.1)

  setting-Refines :
      (t : Table) (m : Model) (p : ℕ)
      → Refines t m
      → ((set_value t (value_at p)).0 ≡ m (hash_of p))
        × Refines (set_value t (value_at p)).1 (put_at p m)
  setting-Refines t m p r = (
    (get-set_value t (value_at p) [] r.valid).0 ∙ r.same (hash_of p),
    record {
      valid = set_value-IsValid t (value_at p) r.valid;
      same = λ hash.
          (get-set_value t (value_at p) hash r.valid).1
          ∙ ap (λ (o : Option Value). if bytes_eq hash (hash_of p) then some (value_at p) else o)
              (r.same hash);
      own = λ hash v e. elim (Bool-cases (bytes_eq hash (hash_of p))) [
        | inl f ↦
            let g = some_injective (rw f at e) in
            ap Value.hash (sym g) ∙ ap hash_of (ap Value.pointer g)
        | inr f ↦ r.own hash v (rw f at e)
      ];
    },
  )

  determined :
      (t : Table) (m : Model) (p : ℕ)
      → Refines t m
      → Determines (value_at p) (bucket t.size t.entries (hash_of p))
  determined t m p r = go (bucket t.size t.entries (hash_of p)) (in_chain t m (hash_of p) r)
    where
      go :
          (chain : Chain)
          → All (λ (e : Value). (get t e.hash ≡ some e) × (e.hash ≡ hash_of e.pointer)) chain
          → Determines (value_at p) chain
      go [] h = tt
      go (e ∷ chain) h = (λ same. h.0.1 ∙ ap hash_of same, go chain h.1)

  apart :
      (t : Table) (m : Model) (p : ℕ)
      → Refines t m
      → points_to p (m (hash_of p)) ≡ false
      → All (λ (e : Value). e.pointer ≢ p) (bucket t.size t.entries (hash_of p))
  apart t m p r f = go (bucket t.size t.entries (hash_of p)) (in_chain t m (hash_of p) r)
    where
      go :
          (chain : Chain)
          → All (λ (e : Value). (get t e.hash ≡ some e) × (e.hash ≡ hash_of e.pointer)) chain
          → All (λ (e : Value). e.pointer ≢ p) chain
      go [] h = tt
      go (e ∷ chain) h = (
        λ same.
            let there : m (hash_of p) ≡ some e =
              sym (r.same (hash_of p)) ∙ ap (get t) (sym (h.0.1 ∙ ap hash_of same)) ∙ h.0.0 in
            absurd (cc ((==_iff e.pointer p).1 same, sym (ap (points_to p) there) ∙ f)),
        go chain h.1,
      )

  removing-there :
      (t : Table) (m : Model) (p : ℕ) (old : Value)
      → Refines t m
      → m (hash_of p) ≡ some old
      → (old.pointer == p) ≡ true
      → ((remove t (value_at p)).0 ≡ points_to p (m (hash_of p)))
        × Refines (remove t (value_at p)).1 (take_from p m)
  removing-there t m p old r e same =
      let f : points_to p (m (hash_of p)) ≡ true = ap (points_to p) e ∙ same in
      let gone = λ (hash : Bytes).
        get-remove t (value_at p) old hash r.valid (determined t m p r) (r.same (hash_of p) ∙ e)
          ((==_iff old.pointer p).0 same) in
      (
        (gone []).0 ∙ sym f,
        record {
          valid = remove-IsValid t (value_at p) r.valid;
          same = λ hash. rw f (
              (gone hash).1
              ∙ ap (λ (o : Option Value). if bytes_eq hash (hash_of p) then none else o)
                  (r.same hash));
          own = λ hash v k. elim (Bool-cases (bytes_eq hash (hash_of p))) [
            | inl g ↦ absurd (cc (rw (f, g) at k))
            | inr g ↦ r.own hash v (rw (f, g) at k)
          ];
        },
      )

  removing-gone :
      (t : Table) (m : Model) (p : ℕ)
      → Refines t m
      → points_to p (m (hash_of p)) ≡ false
      → ((remove t (value_at p)).0 ≡ points_to p (m (hash_of p)))
        × Refines (remove t (value_at p)).1 (take_from p m)
  removing-gone t m p r f =
      let same = remove_unfound t (value_at p) (apart t m p r f) in
      rw same (
        sym f,
        record {
          valid = r.valid;
          same = λ hash. rw f (r.same hash);
          own = λ hash v k. r.own hash v (rw f at k);
        },
      )

  removing-Refines :
      (t : Table) (m : Model) (p : ℕ)
      → Refines t m
      → ((remove t (value_at p)).0 ≡ points_to p (m (hash_of p)))
        × Refines (remove t (value_at p)).1 (take_from p m)
  removing-Refines t m p r = elim (Option-cases (m (hash_of p))) [
    | inl e ↦ removing-gone t m p r (ap (points_to p) e)
    | inr (old, e) ↦ elim (Bool-cases (old.pointer == p)) [
      | inl f ↦ removing-there t m p old r e f
      | inr f ↦ removing-gone t m p r (ap (points_to p) e ∙ f)
    ]
  ]

  answers-Refines :
      (calls : List Call) (t : Table) (m : Model)
      → Refines t m
      → answers calls t ≡ model_answers calls m
  answers-Refines [] t m r = refl
  answers-Refines (setting p ∷ calls) t m r =
      let (e, r') = setting-Refines t m p r in
      ap₂ (λ (o : Option Value) (l : List Answer). replaced o ∷ l) e (answers-Refines calls _ _ r')
  answers-Refines (removing p ∷ calls) t m r =
      let (e, r') = removing-Refines t m p r in
      ap₂ (λ (b : Bool) (l : List Answer). removed b ∷ l) e (answers-Refines calls _ _ r')
  answers-Refines (getting hash ∷ calls) t m r =
      ap₂ (λ (o : Option Value) (l : List Answer). found o ∷ l) (r.same hash)
        (answers-Refines calls t m r)

-- If the hash of a structure stands in it and does not change, then a new table gives for any calls of set,
-- remove and get the answers of a finite map that is empty at first: setting puts a pointer at its hash
-- and returns what was there, removing takes it away if it is the one at its hash and says so.
pub answers-model :
    (hash_of : ℕ → Bytes) (calls : List Call)
    → answers hash_of calls new ≡ model_answers hash_of calls (λ _. none)
answers-model hash_of calls =
    answers-Refines hash_of calls new (λ _. none)
      (record { valid = new-IsValid; same = get-new; own = λ hash v e. absurd (cc e) })
