-- ===== src/Ssz/Items.antt =====
-- The parts of the encodings that fastssz writes the same way in each: the checks of a decoder, the
-- loops over the items of a list, and the first offset of a container.
use gean.Base.{
  ℕ, zero, suc, ◌+◌, ◌*◌, List, [], ◌∷◌, length, Option, none, some, ltb, ◌==◌, not, if◌then◌else◌,
  Run, ok, err, ◌>>=◌, slice, ssz_offset, ssz_variable_offset, ssz_list_too_big, ssz_list_size,
}
use gean.Ssz.{Ssz}

module _ {T : Type 0} where
  -- `for ii := 0; ii < len(items); ii++`, where each item is appended.
  unfoldable pub marshal_items : (List ℕ → T → Run (List ℕ)) → List ℕ → List T → Run (List ℕ)
  marshal_items marshal buf [] = ok buf
  marshal_items marshal buf (x ∷ xs) = marshal buf x >>= λ buf'. marshal_items marshal buf' xs

  -- `for ii := 0; ii < num; ii++`, where the item is read from `buf[ii*size:(ii+1)*size]`, with the
  -- rounds left counted.
  unfoldable pub unmarshal_items : (List ℕ → Run T) → ℕ → ℕ → ℕ → List ℕ → Run (List T)
  unmarshal_items unmarshal size zero ii buf = ok []
  unmarshal_items unmarshal size (suc k) ii buf =
      unmarshal (slice (ii * size) ((ii + 1) * size) buf) >>= λ x.
      unmarshal_items unmarshal size k (ii + 1) buf >>= λ xs. ok (x ∷ xs)

  -- The check of a list against its limit `max`, and the loop.
  unfoldable pub marshal_list : (List ℕ → T → Run (List ℕ)) → ℕ → List ℕ → List T → Run (List ℕ)
  marshal_list marshal max buf xs =
      if ltb max (length xs) then err ssz_list_too_big else marshal_items marshal buf xs

-- `num, err := ssz.DivideInt2(...)`, with the error returned.
unfoldable pub or_list_size : Option ℕ → Run ℕ
or_list_size none = err ssz_list_size
or_list_size (some num) = ok num

module _ (z : Ssz) {T : Type 0} where
  -- The items of `buf`, as many of `size` bytes each as it holds.
  unfoldable pub unmarshal_list : (List ℕ → Run T) → ℕ → ℕ → List ℕ → Run (List T)
  unmarshal_list unmarshal size max buf =
      or_list_size (z.divide_int2 (length buf) size max) >>= λ num.
      unmarshal_items unmarshal size num 0 buf

module _ (z : Ssz) where
  -- The first offset of a container of `size` bytes whose fixed part has `fixed`: `if o = ssz.ReadOffset(bs);
  -- o > size` and `if o != fixed`.
  unfoldable pub first_offset : ℕ → ℕ → List ℕ → Run ℕ
  first_offset fixed size bs =
      let o = z.read_offset bs in
      if ltb size o
      then err ssz_offset
      else if not (o == fixed)
      then err ssz_variable_offset
      else ok o
