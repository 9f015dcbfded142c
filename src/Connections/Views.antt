-- ===== src/Connections/Views.antt =====
-- What the list of the GUI shows of each table, and lemmas on lists that are filtered.
use mathlib.Core.List.{append-nil}
use proxy_for_windows_app.Base.{
  ℕ, ◌≡◌, refl, ◌∙◌, Bool, true, false, List, [], ◌∷◌, ◌++◌, arith, map, keep, ℕ_discrete,
}
use proxy_for_windows_app.Base.Text.{Text, codes, same, Text-discrete}
use proxy_for_windows_app.Connections.{
  Processes, Connection, Tables, rows_of, tcp_connection, tcp6_connection, udp_connection,
  udp6_connection, connections,
}

pub keep-append {ℓ} :
    {A : Type ℓ} (q : A → Bool) (xs ys : List A) → keep q (xs ++ ys) ≡ keep q xs ++ keep q ys
keep-append q [] ys = refl
keep-append q (x ∷ xs) ys = ground (arith, keep-append q xs ys)

pub keep-none {ℓ κ} :
    {A : Type ℓ} {B : Type κ} (q : B → Bool) (f : A → B)
    → ((a : A) → q (f a) ≡ false)
    → (xs : List A) → keep q (map f xs) ≡ []
keep-none q f never [] = refl
keep-none q f never (x ∷ xs) = rw never (keep-none q f never xs)

keep-each {ℓ κ} :
    {A : Type ℓ} {B : Type κ} (q : B → Bool) (f : A → B)
    → ((a : A) → q (f a) ≡ true)
    → (xs : List A) → keep q (map f xs) ≡ map f xs
keep-each q f always [] = refl
keep-each q f always (x ∷ xs) = rw (always, keep-each q f always xs) refl

-- The connections of one protocol.
unfoldable pub shown : Text → List Connection → List Connection
unfolding Text-discrete ℕ_discrete
shown proto cs = keep (λ (c : Connection). same c.proto proto) cs

shown-append :
    (proto : Text) (xs ys : List Connection)
    → shown proto (xs ++ ys) ≡ shown proto xs ++ shown proto ys
unfolding shown
shown-append proto = keep-append (λ (c : Connection). same c.proto proto)

shown-each :
    {R : Type 0} (proto : Text) (f : R → Connection)
    → ((r : R) → same (f r).proto proto ≡ true)
    → (rows : List R) → shown proto (map f rows) ≡ map f rows
unfolding shown
shown-each proto f = keep-each (λ (c : Connection). same c.proto proto) f

shown-none :
    {R : Type 0} (proto : Text) (f : R → Connection)
    → ((r : R) → same (f r).proto proto ≡ false)
    → (rows : List R) → shown proto (map f rows) ≡ []
unfolding shown
shown-none proto f = keep-none (λ (c : Connection). same c.proto proto) f

module _ (ntohs : ℕ → ℕ) (p : Processes) where
  shown-connections :
      (t : Tables) (proto : Text) (a b c d : List Connection)
      → shown proto (map (tcp_connection ntohs p) (rows_of t.tcp)) ≡ a
      → shown proto (map (tcp6_connection ntohs p) (rows_of t.tcp6)) ≡ b
      → shown proto (map (udp_connection ntohs p) (rows_of t.udp)) ≡ c
      → shown proto (map (udp6_connection ntohs p) (rows_of t.udp6)) ≡ d
      → shown proto (connections ntohs p t) ≡ a ++ (b ++ (c ++ d))
  unfolding connections
  shown-connections t proto a b c d ea eb ec ed =
      rw
        (
          shown-append proto (map (tcp_connection ntohs p) (rows_of t.tcp)),
          shown-append proto (map (tcp6_connection ntohs p) (rows_of t.tcp6)),
          shown-append proto (map (udp_connection ntohs p) (rows_of t.udp)),
          ea,
          eb,
          ec,
          ed,
        )
        refl

  -- The list that the GUI shows has every row of each table that could be read once and in its order,
  -- with its owner and state, whatever became of the other tables.
  pub connections_complete :
      (t : Tables)
      → (shown (codes "TCP") (connections ntohs p t) ≡ map (tcp_connection ntohs p) (rows_of t.tcp))
        × (shown (codes "TCP6") (connections ntohs p t)
            ≡ map (tcp6_connection ntohs p) (rows_of t.tcp6))
        × (shown (codes "UDP") (connections ntohs p t)
            ≡ map (udp_connection ntohs p) (rows_of t.udp))
        × (shown (codes "UDP6") (connections ntohs p t)
            ≡ map (udp6_connection ntohs p) (rows_of t.udp6))
  unfolding Text-discrete ℕ_discrete tcp_connection tcp6_connection udp_connection udp6_connection
  connections_complete t =
      let tcp = tcp_connection ntohs p in
      let tcp6 = tcp6_connection ntohs p in
      let udp = udp_connection ntohs p in
      let udp6 = udp6_connection ntohs p in
      let shows = shown-connections t in
      (
        shows (codes "TCP") _ [] [] [] (shown-each _ tcp (λ r. refl) _)
              (shown-none _ tcp6 (λ r. refl) _) (shown-none _ udp (λ r. refl) _)
              (shown-none _ udp6 (λ r. refl) _)
            ∙ append-nil _,
        shows (codes "TCP6") [] _ [] [] (shown-none _ tcp (λ r. refl) _)
              (shown-each _ tcp6 (λ r. refl) _) (shown-none _ udp (λ r. refl) _)
              (shown-none _ udp6 (λ r. refl) _)
            ∙ append-nil _,
        shows (codes "UDP") [] [] _ [] (shown-none _ tcp (λ r. refl) _)
              (shown-none _ tcp6 (λ r. refl) _) (shown-each _ udp (λ r. refl) _)
              (shown-none _ udp6 (λ r. refl) _)
            ∙ append-nil _,
        shows (codes "UDP6") [] [] [] _ (shown-none _ tcp (λ r. refl) _)
            (shown-none _ tcp6 (λ r. refl) _) (shown-none _ udp (λ r. refl) _)
            (shown-each _ udp6 (λ r. refl) _),
      )
