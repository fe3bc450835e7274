-- ===== src/Avm/Strings/Padding.antt =====
-- Byte strings cut into padded chunks, and put together again.
use august.Base.{
  ℕ, zero, suc, ◌-◌, ◌≤◌, ◌<◌, ◌≡◌, refl, [], ◌∷◌, ◌++◌, ltb, if◌then◌else◌, arith, Bool-cases, inl,
  inr, ap, length, take, drop, replicate, take-append-drop, length-take, length-append,
  length-replicate,
}
use august.Base.Bytes.{Bytes, AllBytes}

append_nil : (bs : Bytes) → bs ++ [] ≡ bs
append_nil [] = refl
append_nil (b ∷ bs) = ap (λ x. b ∷ x) (append_nil bs)

take_all : (w : ℕ) (bs : Bytes) → length bs ≤ w → take w bs ≡ bs
take_all zero [] h = refl
take_all zero (b ∷ bs) h = absurd (omega arith)
take_all (suc w) [] h = refl
take_all (suc w) (b ∷ bs) h = ap (λ x. b ∷ x) (take_all w bs (omega arith))

drop_all : (w : ℕ) (bs : Bytes) → length bs ≤ w → drop w bs ≡ []
drop_all zero [] h = refl
drop_all zero (b ∷ bs) h = absurd (omega arith)
drop_all (suc w) [] h = refl
drop_all (suc w) (b ∷ bs) h = drop_all w bs (omega arith)

take_front : (bs zs : Bytes) → take (length bs) (bs ++ zs) ≡ bs
take_front [] zs = refl
take_front (b ∷ bs) zs = ap (λ x. b ∷ x) (take_front bs zs)

abbrev pub padded_to : ℕ → Bytes → Bytes
padded_to w b = b ++ replicate (w - length b) 0

pub length-padded_to : (w : ℕ) (bs : Bytes) → length (padded_to w (take w bs)) ≡ w
length-padded_to w bs = omega (
  arith,
  length-append (take w bs) (replicate (w - length (take w bs)) 0),
  length-replicate {A = ℕ} (w - length (take w bs)) 0,
  length-take w bs,
)

full_chunk : (w : ℕ) (bs : Bytes) → w < length bs → padded_to w (take w bs) ≡ take w bs
full_chunk w bs h =
    let none_left : w - length (take w bs) ≡ 0 = omega (arith, length-take w bs) in
    rw none_left (append_nil (take w bs))

-- What a reader takes out of a chunk, followed by the rest, is the text.
pub chunk_kept :
    (w : ℕ) (bs : Bytes)
    → (if ltb w (length bs)
          then padded_to w (take w bs)
          else take (length bs) (padded_to w (take w bs)))
        ++ drop w bs
      ≡ bs
chunk_kept w bs = elim (Bool-cases (ltb w (length bs))) [
  | inl long ↦ rw (long, full_chunk w bs (ground arith)) (take-append-drop w bs)
  | inr short ↦
      let h : length bs ≤ w = ground arith in
      rw (short, take_all w bs h, drop_all w bs h, take_front bs (replicate (w - length bs) 0))
        (append_nil bs)
]

AllBytes-append : (a b : Bytes) → AllBytes a → AllBytes b → AllBytes (a ++ b)
AllBytes-append [] b h k = k
AllBytes-append (x ∷ a) b (hx, h) k = (hx, AllBytes-append a b h k)

AllBytes-replicate : (n : ℕ) → AllBytes (replicate n 0)
AllBytes-replicate zero = tt
AllBytes-replicate (suc n) = (omega arith, AllBytes-replicate n)

AllBytes-take : (n : ℕ) (bs : Bytes) → AllBytes bs → AllBytes (take n bs)
AllBytes-take zero bs h = tt
AllBytes-take (suc n) [] h = tt
AllBytes-take (suc n) (b ∷ bs) (hb, h) = (hb, AllBytes-take n bs h)

pub AllBytes-drop : (n : ℕ) (bs : Bytes) → AllBytes bs → AllBytes (drop n bs)
AllBytes-drop zero bs h = h
AllBytes-drop (suc n) [] h = tt
AllBytes-drop (suc n) (b ∷ bs) (hb, h) = AllBytes-drop n bs h

pub AllBytes-padded_to : (w : ℕ) (bs : Bytes) → AllBytes bs → AllBytes (padded_to w (take w bs))
AllBytes-padded_to w bs h =
    AllBytes-append (take w bs) _ (AllBytes-take w bs h) (AllBytes-replicate _)
