-- ===== src/Buffer/Append.antt =====
-- What the operations of a buffer promise: contents as a list, and enough room.
use notbit.Common.{
  ℕ, ◌+◌, ◌-◌, ◌*◌, ◌%◌, ◌^◌, ◌≤◌, ◌<◌, ◌≡◌, refl, sym, ◌∙◌, ap, arith, Bytes, [], ◌∷◌, ◌++◌, none,
  some, ltb, Bool-cases, inl, inr, ◌⊎◌, ltb→lt, take, length, length-append, take-append,
  append_assoc,
}
use Prim.Native.Nat.{max}
use mathlib.Core.Path.{ap₂}
use notbit.Buffer.{Buffer, grow, ensure_size, append, append_c, append_string}
use notbit.Buffer.Growth.{grow_total, grow_stuck}

-- The contents lie in the room allocated, whose size a size_t holds.
pub record IsValid (b : Buffer) : Type 0 where
  pub held : length b.contents ≤ b.size
  pub fits : b.size < 2 ^ 64

-- A buffer with room for `size` bytes, which holds `contents`, and has not grown beyond twice what was asked for.
pub record Holds (old : Buffer) (size : ℕ) (bytes : Bytes) (b : Buffer) : Type 0 where
  pub contents : b.contents ≡ bytes
  pub room : size ≤ b.size
  pub modest : (b.size ≡ max old.size 1) ⊎ (b.size < 2 * size)
  pub valid : IsValid b

-- A request of at most 2 ^ 63 bytes ends, keeps the contents, and gives the room asked for.
pub ensure_size-Holds :
    (b : Buffer) (size : ℕ)
    → IsValid b
    → size ≤ 2 ^ 63
    → (b' : Buffer) × (ensure_size b size ≡ some b') × Holds b size b.contents b'
unfolding ensure_size
ensure_size-Holds b size v small =
    let (r, run, enough, below, kept, how) =
      grow_total 63 (max b.size 1) size (omega arith) (omega arith) small (omega arith) in
    (
      record b { size = r },
      rw (run, ensure_size),
      record {
        contents = refl;
        room = enough;
        modest = how;
        valid = record { held = omega arith; fits = below };
      },
    )

-- Appending at most 2 ^ 63 bytes in all appends them, with room for them and twice that at most.
pub append-Holds :
    (b : Buffer) (bytes : Bytes)
    → IsValid b
    → length b.contents + length bytes ≤ 2 ^ 63
    → (b' : Buffer) × (append b bytes ≡ some b')
      × Holds b (length b.contents + length bytes) (b.contents ++ bytes) b'
unfolding append
append-Holds b bytes v small =
    let same : (length b.contents + length bytes) % 2 ^ 64 ≡ length b.contents + length bytes =
      omega arith in
    let (b', run, h) = ensure_size-Holds b (length b.contents + length bytes) v small in
    (
      record b' { contents = b'.contents ++ bytes },
      rw (same, run, append),
      record {
        contents = ap (λ t. t ++ bytes) h.contents;
        room = h.room;
        modest = h.modest;
        valid = record { held = rw (h.contents, length-append) h.room; fits = h.valid.fits };
      },
    )

-- Appending one character gives what appending a block of one does, though it does not look for
-- more room while there is some.
pub append_c-contents :
    (b : Buffer) (c : ℕ)
    → IsValid b
    → length b.contents + 1 ≤ 2 ^ 63
    → (b' : Buffer) × (append_c b c ≡ some b') × (b'.contents ≡ b.contents ++ (c ∷ [])) × IsValid b'
unfolding append_c
append_c-contents b c v small = elim (Bool-cases (ltb (length b.contents) b.size)) [
  | inl e ↦ (
    record b { contents = b.contents ++ (c ∷ []) },
    rw e,
    refl,
    record { held = rw length-append (omega (arith, ltb→lt _ _ e)); fits = v.fits },
  )
  | inr e ↦
      let (b', run, h) = append-Holds b (c ∷ []) v (omega arith) in
      (b', rw e run, h.contents, h.valid)
]

-- A C string is appended without the zero at its end.
pub append_string-contents :
    (b : Buffer) (str : Bytes)
    → IsValid b
    → length b.contents + length str + 1 ≤ 2 ^ 63
    → (b' : Buffer) × (append_string b str ≡ some b')
      × (b'.contents ≡ b.contents ++ str)
      × IsValid b'
unfolding append_string
append_string-contents b str v small =
    let (b', run, h) = append-Holds b (str ++ (0 ∷ [])) v (rw length-append (omega arith)) in
    let whole : b'.contents ≡ (b.contents ++ str) ++ (0 ∷ []) =
      h.contents ∙ sym (append_assoc b.contents str (0 ∷ [])) in
    let size : length b'.contents ≡ length (b.contents ++ str) + 1 =
      ap length whole ∙ length-append (b.contents ++ str) (0 ∷ []) in
    let cut : take (length b'.contents - 1) b'.contents ≡ b.contents ++ str =
      ap₂ take
        (let e : length b'.contents - 1 ≡ length (b.contents ++ str) = omega (arith, size) in e)
        whole
      ∙ take-append (b.contents ++ str) (0 ∷ []) in
    (
      record b' { contents = take (length b'.contents - 1) b'.contents },
      rw (run, append_string),
      cut,
      record { held = rw cut (omega (arith, size, h.valid.held)); fits = h.valid.fits },
    )

-- A request above 2 ^ 63 from an empty buffer, or from one whose size is a power of two, never ends.
pub ensure_size_endless :
    (b : Buffer) (n k size : ℕ)
    → n + k ≡ 63
    → max b.size 1 ≡ 2 ^ n
    → 2 ^ 63 < size
    → (fuel : ℕ) → grow fuel (max b.size 1) size ≡ none
ensure_size_endless b n k size h e big fuel = rw e (grow_stuck fuel k n size big h)
