-- ===== src/Server/Handles.antt =====
-- The table of open files: handles are never given twice, and each stands for its own file.
use azure_s_sftp.Base.{
  if◌then◌else◌, ℕ, zero, suc, ◌+◌, ◌-◌, ◌*◌, ◌/◌, ◌%◌, ◌≤◌, ◌<◌, ◌≡◌, ◌≢◌, refl, sym, ◌∙◌, ap,
  List, [], ◌∷◌, ◌++◌, Option, none, some, Text, ◌==◌, eq_iff, ltb, Error, arith, Option-cases,
  Bool-cases, inl, inr, ◌⊎◌,
}
use azure_s_sftp.Server.{
  Server, File, itoa_rounds, itoa, lookup, erase, next_handle, get_handle, close_handle,
}

-- The number that a text of digits stands for, behind the number read so far.
value_from : ℕ → Text → ℕ
value_from acc [] = acc
value_from acc (c ∷ s) = value_from (acc * 10 + (c - 48)) s

value_from-append :
    (acc : ℕ) (s t : Text) → value_from acc (s ++ t) ≡ value_from (value_from acc s) t
unfolding value_from
value_from-append acc [] t = refl
value_from-append acc (c ∷ s) t = value_from-append (acc * 10 + (c - 48)) s t

value_from-itoa_rounds : (fuel n : ℕ) → n < fuel → value_from 0 (itoa_rounds fuel n) ≡ n
unfolding value_from itoa_rounds
value_from-itoa_rounds zero n h = elim h [ ]
value_from-itoa_rounds (suc fuel) n h = elim (Bool-cases (ltb n 10)) [
  | inl small ↦ rw small (omega arith)
  | inr large ↦
      rw (large, value_from-append 0 (itoa_rounds fuel (n / 10)) ((48 + n % 10) ∷ []))
        (let ih : value_from 0 (itoa_rounds fuel (n / 10)) ≡ n / 10 =
            value_from-itoa_rounds fuel (n / 10) (ground arith) in
          rw ih (omega arith))
]

-- The decimal digits of a number read back as that number.
value_from-itoa : (n : ℕ) → value_from 0 (itoa n) ≡ n
unfolding itoa
value_from-itoa n = value_from-itoa_rounds (suc n) n (omega arith)

pub itoa_injective : (m n : ℕ) → itoa m ≡ itoa n → m ≡ n
itoa_injective m n e = sym (value_from-itoa m) ∙ (ap (value_from 0) e ∙ value_from-itoa n)

-- Every handle is the number of an earlier call of `nextHandle`.
abbrev pub Numbered : ℕ → List (Text × File) → Type 0
Numbered count [] = Unit
Numbered count ((h, f) ∷ m) = ((k : ℕ) × (k ≤ count) × (h ≡ itoa k)) × Numbered count m

abbrev pub IsNumbered : Server → Type 0
IsNumbered svr = Numbered svr.handle_count svr.open_files

lookup_fresh :
    (count k : ℕ) (m : List (Text × File)) → Numbered count m → count < k → lookup (itoa k) m ≡ none
unfolding lookup
lookup_fresh count k [] n h = refl
lookup_fresh count k ((j, f) ∷ m) ((i, le, e), n) h = elim (Bool-cases (j == itoa k)) [
  | inl same ↦
      let ik = itoa_injective i k (sym e ∙ (eq_iff j (itoa k)).0 same) in absurd (omega arith)
  | inr other ↦ rw other (lookup_fresh count k m n h)
]

pub lookup-erase_self : (h : Text) (m : List (Text × File)) → lookup h (erase h m) ≡ none
unfolding lookup erase
lookup-erase_self h [] = refl
lookup-erase_self h ((k, f) ∷ m) = ground (arith, lookup-erase_self h m)

pub lookup-erase_ne :
    (h j : Text) (m : List (Text × File)) → h ≢ j → lookup j (erase h m) ≡ lookup j m
unfolding lookup erase
lookup-erase_ne h j [] n = refl
lookup-erase_ne h j ((k, f) ∷ m) n = ground (arith, eq_iff k h, eq_iff k j, lookup-erase_ne h j m n)

Numbered-erase :
    (count : ℕ) (h : Text) (m : List (Text × File)) → Numbered count m → Numbered count (erase h m)
unfolding erase
Numbered-erase count h [] n = tt
Numbered-erase count h ((k, f) ∷ m) n = elim (Bool-cases (k == h)) [
  | inl same ↦ rw same (Numbered-erase count h m n.1)
  | inr other ↦ rw other (n.0, Numbered-erase count h m n.1)
]

Numbered-mono : (c d : ℕ) (m : List (Text × File)) → c ≤ d → Numbered c m → Numbered d m
Numbered-mono c d [] h n = tt
Numbered-mono c d ((k, f) ∷ m) h ((i, le, e), n) = ((i, omega arith, e), Numbered-mono c d m h n)

-- In a session whose handles are numbers up to its count, a handle that `nextHandle` gives was not
-- open before. It stands for the new file, every other handle keeps its file, and the handles stay
-- numbers up to the count.
pub next_handle_fresh :
    (svr : Server) (f : File) (j : Text)
    → IsNumbered svr
    → let (svr', h) = next_handle svr f in
      (get_handle svr h ≡ none)
      × (get_handle svr' j ≡ (if h == j then some f else get_handle svr j))
      × IsNumbered svr'
unfolding next_handle get_handle lookup
next_handle_fresh svr f j n =
    let k = svr.handle_count + 1 in
    (
      lookup_fresh svr.handle_count k svr.open_files n (omega arith),
      ground (arith, eq_iff (itoa k) j, lookup-erase_ne (itoa k) j svr.open_files),
      (
        (k, omega arith, refl),
        Numbered-mono svr.handle_count k _ (omega arith)
            (Numbered-erase svr.handle_count (itoa k) svr.open_files n),
      ),
    )

-- In a session whose handles are numbers up to its count, closing a handle takes it, and no other,
-- from the table, and the handles stay such numbers. The answer is that of closing its file, or EBADF for a handle that is not open, which changes
-- nothing in the session.
pub close_handle_lem :
    (close : File → Option Error) (svr : Server) (h j : Text)
    → IsNumbered svr
    → let (svr', e) = close_handle close svr h in
      (get_handle svr' j ≡ (if h == j then none else get_handle svr j))
      × IsNumbered svr'
      × (((f : File) × (get_handle svr h ≡ some f) × (e ≡ close f))
          ⊎ ((get_handle svr h ≡ none) × (svr' ≡ svr) × (e ≡ some (Error.errno 9))))
unfolding close_handle get_handle
close_handle_lem close svr h j n = elim (Option-cases (lookup h svr.open_files)) [
  | inl shut ↦
      rw (shut, close_handle, get_handle) (ground (arith, eq_iff h j), n, inr (refl, refl, refl))
  | inr (f, found) ↦
      rw (found, close_handle, get_handle)
        (
          ground (
            arith,
            eq_iff h j,
            lookup-erase_self h svr.open_files,
            lookup-erase_ne h j svr.open_files,
          ),
          Numbered-erase svr.handle_count h svr.open_files n,
          inl (f, refl, refl),
        )
]
