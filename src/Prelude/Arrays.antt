-- ===== src/Prelude/Arrays.antt =====
-- Byte arrays of C, and the outcomes of code that may leave them.
use Prim.Native.Nat.{ℕ, zero, suc, ◌+◌, ◌<◌, ◌%◌}
use mathlib.Core.Path.{◌≡◌, refl, sym, ap, ◌∙◌, subst}
use native.Mathlib.Omega.{arith}
use mathlib.Core.List.{List, [], ◌∷◌, ◌++◌}
use ble_parking_gate_way.Prelude.Tests.{◌==◌, if◌then◌else◌}
use ble_parking_gate_way.Prelude.Lists.{length, get_or}

abbrev pub Bytes : Type 0
Bytes = List ℕ

-- The cells of an array; the code that writes checks its bounds.
abbrev pub Memory : Type 0
Memory = ℕ → ℕ

-- `m[i] = v`
abbrev pub update : Memory → ℕ → ℕ → Memory
update m i v j = if i == j then v else m j

-- `memcpy(m, bytes, n)` for the `n` bytes of the list
abbrev pub memcpy : Memory → Bytes → Memory
memcpy m bytes i = get_or bytes i (m i)

-- The cells `i`, `i + 1`, ... of `m`, `n` of them.
abbrev pub cells : Memory → ℕ → ℕ → Bytes
cells m i zero = []
cells m i (suc n) = m i ∷ cells m (suc i) n

-- What the C standard leaves undefined and the code can reach.
pub data Fault : Type 0 where
  buffer_overflow out_of_bounds uninitialised : Fault

pub data Result {ℓ} (A : Type ℓ) : Type ℓ where
  ok : A → Result A
  fault : Fault → Result A

infixl 5 ◌>>=◌
abbrev pub ◌>>=◌ {ℓ κ} : {A : Type ℓ} {B : Type κ} → Result A → (A → Result B) → Result B
ok a >>= f = f a
fault e >>= f = fault e

-- Where an outcome is no fault, `P` holds of it.
abbrev pub Holds {ℓ κ} : {A : Type ℓ} → (A → Type κ) → Result A → Type κ
Holds P (ok a) = P a
Holds P (fault e) = Unit

pub Holds-ok {ℓ κ} :
    {A : Type ℓ} (P : A → Type κ) (o : Result A) {a : A} → o ≡ ok a → Holds P o → P a
Holds-ok P o e h = subst (Holds P) e h

-- An `int` is its bit pattern, below 2 ^ 32.
abbrev pub minus_one : ℕ
minus_one = 4294967295

abbrev pub u8 : ℕ → ℕ
u8 n = n % 256

abbrev pub u16 : ℕ → ℕ
u16 n = n % 65536

pub length-cells : (m : Memory) (i n : ℕ) → length (cells m i n) ≡ n
length-cells m i zero = refl
length-cells m i (suc n) = ap suc (length-cells m (suc i) n)

cells-suc : (m : Memory) (i n : ℕ) → cells m (suc i) n ≡ cells (λ j. m (suc j)) i n
cells-suc m i zero = refl
cells-suc m i (suc n) = ap (◌∷◌ (m (suc i))) (cells-suc m (suc i) n)

-- What was copied behind the bytes `front` is read back.
pub cells-memcpy :
    (front bytes : Bytes) (m : Memory)
    → cells (memcpy m (front ++ bytes)) (length front) (length bytes) ≡ bytes
cells-memcpy [] [] m = refl
cells-memcpy [] (b ∷ bs) m =
    ap (◌∷◌ b) (cells-suc (memcpy m (b ∷ bs)) 0 (length bs) ∙ cells-memcpy [] bs (λ j. m (suc j)))
cells-memcpy (x ∷ front) bytes m =
    cells-suc (memcpy m (x ∷ (front ++ bytes))) (length front) (length bytes)
    ∙ cells-memcpy front bytes (λ j. m (suc j))

get_or-cells : (m : Memory) (n i j d : ℕ) → j < n → get_or (cells m i n) j d ≡ m (i + j)
get_or-cells m zero i j d h = absurd (omega arith)
get_or-cells m (suc n) i zero d h = let e : i + 0 ≡ i = omega arith in ap m (sym e)
get_or-cells m (suc n) i (suc j) d h =
    let e : suc i + j ≡ i + suc j = omega arith in
    get_or-cells m n (suc i) j d (omega arith) ∙ ap m e

-- The cells of an array whose first ones are known.
pub cells_known :
    (bytes : Bytes) (m : Memory)
    → cells m 0 (length bytes) ≡ bytes
    → (j : ℕ) → j < length bytes
    → m j ≡ get_or bytes j 0
cells_known bytes m known j h =
    let e : 0 + j ≡ j = omega arith in
    ap m (sym e)
    ∙ sym (get_or-cells m (length bytes) 0 j 0 h)
    ∙ ap (λ (bytes' : Bytes). get_or bytes' j 0) known
