-- ===== src/Connections/Fetching.antt =====
-- The reading of the system's tables, in both winapi.go: the four functions of the GUI and the two of
-- the console. A result of the second call is the rows that `NumEntries` counts.
use proxy_for_windows_app.Base.{
  ℕ, ◌^◌, ◌<◌, ◌≡◌, ◌≢◌, refl, ◌⊎◌, inl, inr, not, List, [], ◌==◌, leb, if◌then◌else◌, Result, ok,
  err, length, is_empty, arith, Bool-cases,
}

-- What the two system calls return: the size, the code, the rows.
pub record Fetch {ℓ} (A : Type ℓ) : Type ℓ where
  pub size : ℕ
  pub ret : ℕ
  pub rows : List A

-- A Go function that returns, or panics at an index out of range.
pub data Fetched {ℓ} (A : Type ℓ) : Type ℓ where
  returned : Result ℕ (List A) → Fetched A
  panicked : Fetched A

-- The slice of an array of `1 << 20` rows.
pub sliced {ℓ} : {A : Type ℓ} → List A → Fetched A
sliced rows = if leb (length rows) (2 ^ 20) then returned (ok rows) else panicked

-- `getTCPTable`, `getTCP6Table`, `getUDPTable` and `getUDP6Table` of the GUI.
unfoldable pub get_table {ℓ} : {A : Type ℓ} → Fetch A → Fetched A
unfolding sliced
get_table f =
    if f.size == 0
    then returned (ok [])
    else if not (f.ret == 0)
    then returned (err f.ret)
    else if is_empty f.rows
    then returned (ok [])
    else sliced f.rows

-- `getTCPTable` and `getUDPTable` of the console; `&buf[0]` panics on an empty buffer.
unfoldable pub get_table_console {ℓ} : {A : Type ℓ} → Fetch A → Fetched A
unfolding sliced
get_table_console f =
    if f.size == 0
    then panicked
    else if not (f.ret == 0)
    then returned (err f.ret)
    else sliced f.rows

-- Both versions return the same where the system gives a size, and the version of the GUI panics only
-- on a table of more than `2 ^ 20` rows; where the system gives no size, the version of the GUI returns
-- no rows and that of the console panics.
pub get_table-agrees {ℓ} :
    {A : Type ℓ} (f : Fetch A)
    → ((f.size ≢ 0)
        × (get_table_console f ≡ get_table f)
        × ((get_table f ≢ panicked) ⊎ (2 ^ 20 < length f.rows)))
      ⊎ ((f.size ≡ 0) × (get_table f ≡ returned (ok [])) × (get_table_console f ≡ panicked))
unfolding get_table get_table_console sliced
get_table-agrees f = elim (Bool-cases (f.size == 0)) [
  | inl none_given ↦ inr (ground arith, rw none_given refl, rw none_given refl)
  | inr given ↦ inl (
    ground arith,
    ground arith,
    elim (Bool-cases (leb (length f.rows) (2 ^ 20))) [
      | inl fits ↦ inl (ground arith)
      | inr long ↦ inr (ground arith)
    ],
  )
]
