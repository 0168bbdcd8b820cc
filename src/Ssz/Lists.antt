-- ===== src/Ssz/Lists.antt =====
-- What the parts that the encodings share keep: offsets and lists are read back.
use mathlib.Core.List.{append_assoc, append-nil}
use native.Mathlib.Nat.{mul-mod_left, mul-div_cancel, div-add-mod'}
use gean.Base.{
  ℕ, zero, suc, ◌+◌, ◌*◌, ◌/◌, ◌%◌, ◌^◌, ◌≤◌, ◌<◌, ◌≡◌, refl, sym, ap, ◌∙◌, List, [], ◌∷◌, ◌++◌,
  All, length, length-append, some, true, false, Bool-cases, inl, inr, ltb, leb, ◌==◌,
  if◌then◌else◌, Run, Error, ok, err, >>=-eq-ok, arith, Bytes, slice, slice_whole, slice_none,
  slice_middle, slice_join, length-slice, slice-All, le_bytes, length-le_bytes, le_value-le_bytes,
  le_bytes-le_value,
}
use gean.Ssz.{Ssz, IsLawful}
use gean.Ssz.Codec.{IsCodec, ok_inj}
use gean.Ssz.Items.{
  marshal_items, unmarshal_items, marshal_list, unmarshal_list, or_list_size, first_offset,
}

module _ {T : Type 0} where
  unfoldable pub joined : (T → List ℕ) → List T → List ℕ
  joined bytes [] = []
  joined bytes (x ∷ xs) = bytes x ++ joined bytes xs

-- A check of a length.
pub at_least_ok :
    {A : Type 0} (failure : Error) (n m : ℕ) (r : Run A)
    → m ≤ n
    → (if ltb n m then err failure else r) ≡ r
at_least_ok failure n m r e = let same : ltb n m ≡ false = ground arith in rw same

pub at_least_inv :
    {A : Type 0} (failure : Error) (n m : ℕ) (r : Run A) {a : A}
    → (if ltb n m then err failure else r) ≡ ok a
    → (m ≤ n) × (r ≡ ok a)
at_least_inv failure n m r h = elim (Bool-cases (ltb n m)) [
  | inl short ↦ cc (rw short at h)
  | inr long ↦ (ground arith, rw long at h)
]

module _ (z : Ssz) (lawful : IsLawful z) where
  pub offset-reads : (n : ℕ) → n < 256 ^ 4 → z.read_offset (le_bytes 4 n) ≡ n
  offset-reads n h =
      lawful.read_offset-exact (le_bytes 4 n) (length-le_bytes 4 n) ∙ le_value-le_bytes 4 n h

  pub offset-canonical :
      (bs : List ℕ) → Bytes bs → length bs ≡ 4 → le_bytes 4 (z.read_offset bs) ≡ bs
  offset-canonical bs h e =
      let back = le_bytes-le_value bs h in rw (lawful.read_offset-exact bs e) (rw e at back)

  pub first_offset-reads :
      (n size : ℕ) → n < 256 ^ 4 → n ≤ size → first_offset z n size (le_bytes 4 n) ≡ ok n
  unfolding first_offset
  first_offset-reads n size h k =
      let in_buffer : ltb size n ≡ false = ground arith in
      let same : (n == n) ≡ true = ground arith in rw (offset-reads n h, in_buffer, same)

  pub first_offset-inv :
      (n size : ℕ) (bs : List ℕ) {o : ℕ}
      → Bytes bs
      → length bs ≡ 4
      → first_offset z n size bs ≡ ok o
      → (o ≡ n) × (le_bytes 4 n ≡ bs)
  unfolding first_offset
  first_offset-inv n size bs h e k = elim (Bool-cases (ltb size (z.read_offset bs))) [
    | inl beyond ↦ cc (rw beyond at k)
    | inr within ↦
        let k₁ = rw within at k in
        elim (Bool-cases (z.read_offset bs == n)) [
          | inr other ↦ cc (rw other at k₁)
          | inl same ↦
              let k₂ = rw same at k₁ in
              let exact : z.read_offset bs ≡ n = ground arith in
              let back = offset-canonical bs h e in (sym (ok_inj _ _ k₂) ∙ exact, rw exact at back)
        ]
  ]

-- Items of a fixed size `n`: the decoder is only given buffers of that length.
pub record IsItem {T : Type 0} (marshal : List ℕ → T → Run (List ℕ)) (unmarshal : List ℕ → Run T)
    (Fits : T → Type 0) (n : ℕ) (bytes : T → List ℕ) : Type 0 where
  pub appends : (buf : List ℕ) (x : T) → Fits x → marshal buf x ≡ ok (buf ++ bytes x)
  pub length-bytes : (x : T) → Fits x → length (bytes x) ≡ n
  pub reads : (x : T) → Fits x → unmarshal (bytes x) ≡ ok x
  pub canonical :
      (buf : List ℕ) (x : T)
      → Bytes buf
      → length buf ≡ n
      → unmarshal buf ≡ ok x
      → Fits x × (bytes x ≡ buf)

pub item :
    {T : Type 0} {marshal : List ℕ → T → Run (List ℕ)} {unmarshal : List ℕ → Run T}
    {Fits : T → Type 0} {n : ℕ} {bytes : T → List ℕ}
    → IsCodec marshal unmarshal Fits (λ x. n) bytes
    → IsItem marshal unmarshal Fits n bytes
item c = record {
  appends = c.appends;
  length-bytes = c.length-bytes;
  reads = c.reads;
  canonical = λ buf x h e e'. c.canonical buf x h e';
}

-- Lists of such items.
module _ (z : Ssz) (lawful : IsLawful z) {T : Type 0} {marshal : List ℕ → T → Run (List ℕ)}
    {unmarshal : List ℕ → Run T} {Fits : T → Type 0} (n : ℕ) {bytes : T → List ℕ}
    (c : IsItem marshal unmarshal Fits n bytes) where
  length-joined : (xs : List T) → All Fits xs → length (joined bytes xs) ≡ length xs * n
  unfolding joined
  length-joined [] h = omega arith
  length-joined (x ∷ xs) h =
      omega (
        arith,
        length-append (bytes x) (joined bytes xs),
        c.length-bytes x h.0,
        length-joined xs h.1,
      )

  items-append :
      (buf : List ℕ) (xs : List T)
      → All Fits xs
      → marshal_items marshal buf xs ≡ ok (buf ++ joined bytes xs)
  unfolding marshal_items joined
  items-append buf [] h = ap ok (sym (append-nil buf))
  items-append buf (x ∷ xs) h =
      rw (c.appends buf x h.0, items-append (buf ++ bytes x) xs h.1) (simp append_assoc)

  -- Behind the items of the rounds before.
  items-read :
      (ii : ℕ) (before : List ℕ) (xs : List T)
      → length before ≡ ii * n
      → All Fits xs
      → unmarshal_items unmarshal n (length xs) ii (before ++ joined bytes xs) ≡ ok xs
  unfolding unmarshal_items joined
  items-read ii before [] e h = refl
  items-read ii before (x ∷ xs) e h =
      let ends : (ii + 1) * n ≡ ii * n + n = omega arith in
      let size = c.length-bytes x h.0 in
      let rest =
        items-read (ii + 1) (before ++ bytes x) xs
          (omega (arith, length-append before (bytes x), e, size, ends)) h.1 in
      rw (
        slice_middle (ii * n) ((ii + 1) * n) before (bytes x) (joined bytes xs) e
            (omega (arith, size, ends)),
        c.reads x h.0,
        ← append_assoc before (bytes x) (joined bytes xs),
        rest,
      )

  -- Whose items stand in the buffer from `a` to `b`.
  items-canonical :
      (k ii a b : ℕ) (buf : List ℕ) (xs : List T)
      → Bytes buf
      → a ≡ ii * n
      → b ≡ a + k * n
      → b ≤ length buf
      → unmarshal_items unmarshal n k ii buf ≡ ok xs
      → All Fits xs × (joined bytes xs ≡ slice a b buf) × (length xs ≡ k)
  unfolding unmarshal_items joined
  items-canonical zero ii a b buf xs h ea eb le e =
      rw (sym (ok_inj [] xs e)) (tt, sym (slice_none a b buf (omega (arith, eb))), refl)
  items-canonical (suc k) ii a b buf xs h ea eb le e =
      let mid = (ii + 1) * n in
      let (x, ex, e₁) = >>=-eq-ok (unmarshal (slice (ii * n) mid buf)) _ e in
      let (ys, ey, e₂) = >>=-eq-ok (unmarshal_items unmarshal n k (ii + 1) buf) _ e₁ in
      let ends : mid ≡ a + n = omega (arith, ea) in
      let size = length-slice (ii * n) mid buf (omega arith) (omega (arith, ends, eb, le)) in
      let (fx, bx) =
        c.canonical _ x (slice-All _ (ii * n) mid buf h) (size ∙ omega (arith, ends, ea)) ex in
      let (fy, by, ly) =
        items-canonical k (ii + 1) mid b buf ys h refl (omega (arith, ea, eb)) le ey in
      let both : bytes x ++ joined bytes ys ≡ slice a b buf =
        rw (bx, by, ea) (slice_join (ii * n) mid b buf (omega arith) (omega (arith, ea, eb))) in
      rw (sym (ok_inj _ xs e₂)) ((fx, fy), both, ap suc ly)

  divided : (m max : ℕ) → 0 < n → m ≤ max → z.divide_int2 (m * n) n max ≡ some m
  divided m max pos h =
      let small : leb m max ≡ true = ground arith in
      rw (lawful.divide_int2-exact (m * n) n max, mul-mod_left m n, mul-div_cancel m pos, small)

  divided_inv :
      (len k max : ℕ)
      → 0 < n
      → or_list_size (z.divide_int2 len n max) ≡ ok k
      → (len ≡ k * n) × (k ≤ max)
  unfolding or_list_size
  divided_inv len k max pos h =
      let h₀ = rw (lawful.divide_int2-exact len n max) at h in
      elim (Bool-cases (len % n == 0)) [
        | inr ragged ↦ cc (rw ragged at h₀)
        | inl even ↦
            let h₁ = rw even at h₀ in
            elim (Bool-cases (leb (len / n) max)) [
              | inr large ↦ cc (rw large at h₁)
              | inl small ↦
                  let whole = div-add-mod' len n in
                  let none_left : len % n ≡ 0 = ground arith in
                  let fits : len / n ≤ max = ground arith in
                  rw (sym (ok_inj _ k (rw small at h₁))) (omega (arith, whole, none_left), fits)
            ]
      ]

  pub list-IsCodec :
      (max : ℕ)
      → 0 < n
      → IsCodec
          (marshal_list marshal max)
          (unmarshal_list z unmarshal n max)
          (λ xs. All Fits xs × (length xs ≤ max))
          (λ xs. length xs * n)
          (joined bytes)
  unfolding marshal_list unmarshal_list or_list_size
  list-IsCodec max pos = record {
    appends = λ buf xs h.
        let small : ltb max (length xs) ≡ false = ground (arith, h.1) in
        rw small (items-append buf xs h.0);
    length-bytes = λ xs h. length-joined xs h.0;
    reads = λ xs h.
        rw (length-joined xs h.0, divided (length xs) max pos h.1)
          (items-read 0 [] xs (omega arith) h.0);
    canonical = λ buf xs h e.
        let (k, ek, e₁) = >>=-eq-ok (or_list_size (z.divide_int2 (length buf) n max)) _ e in
        let (size, small) = divided_inv (length buf) k max pos ek in
        let (fits, same, len) =
          items-canonical k 0 0 (k * n) buf xs h (omega arith) (omega arith) (omega (arith, size))
            e₁ in
        ((fits, omega (arith, len, small)), same ∙ slice_whole (k * n) buf size);
  }
