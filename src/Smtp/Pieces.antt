-- ===== src/Smtp/Pieces.antt =====
-- Where the network cuts what the client sends does not matter.
use penn_cloud.Prelude.{
  ℕ, zero, suc, ◌+◌, ◌≤◌, ◌<◌, Bytes, bytes_eq, ◌≡◌, refl, sym, ap, ◌∙◌, Bool, true, false, Option,
  none, some, List, [], ◌∷◌, ◌++◌, All, All-append, append-nil, append_assoc, arith, length,
  length-append, cut_text, begins, ◌==◌, Bool-cases, inl, inr,
}
use mathlib.Core.Path.{subst}
use penn_cloud.Service.{Service}
use penn_cloud.TextServer.{crlf}
use penn_cloud.TextServer.Lines.{Lacks}
use penn_cloud.Worker.Restart.{concat}
use penn_cloud.Smtp.Delivery.{Moment}
use penn_cloud.Smtp.Connection.{
  Connection, handle_line, take_line, take_next, take_lines, receive, receive_all, c_string,
}

-- A line end that is there stays the first one, whatever follows, and takes a part of the text.
Extends : Bytes → Option (Bytes × Bytes) → Bytes → Type 0
Extends a none b = Unit
Extends a (some (x, y)) b = (cut_text crlf (a ++ b) ≡ some (x, y ++ b)) × (length y < length a)

cut-Extends : (a b : Bytes) → Extends a (cut_text crlf a) b
unfolding Extends cut_text begins crlf bytes_eq
cut-Extends [] b = tt
cut-Extends (p ∷ []) b = ground arith
cut-Extends (p ∷ q ∷ a) b = ground (arith, cut-Extends (q ∷ a) b)

c_string-Lacks : (a : Bytes) → Lacks 0 a → c_string a ≡ a
unfolding c_string
c_string-Lacks [] h = refl
c_string-Lacks (x ∷ a) h = ground (arith, h.0, c_string-Lacks a h.1)

module _ {S : Type 0} (service : Service S) (relay : Bytes → Option Bytes) (extra : Bool)
    (moment : ℕ → Moment) where
  step : Connection S → Bytes → Connection S
  step = take_line service relay extra moment

  rounds : ℕ → Connection S → Connection S
  rounds = take_lines service relay extra moment

  abbrev with_buffer : Connection S → Bytes → Connection S
  with_buffer c b = record c { buffer = b }

  step-with_buffer :
      (c : Connection S) (b raw : Bytes) → step (with_buffer c b) raw ≡ with_buffer (step c raw) b
  unfolding step take_line handle_line
  step-with_buffer c b raw = ground arith

  step-buffer : (c : Connection S) (raw : Bytes) → (step c raw).buffer ≡ c.buffer
  unfolding step take_line handle_line
  step-buffer c raw = ground arith

  -- How a round goes on after its line.
  carry : (Connection S → Connection S) → Connection S → Bytes → Connection S
  carry more c y = elim c.is_open [ true ↦ more (with_buffer c y) | false ↦ with_buffer c y ]

  next-carry :
      (more : Connection S → Connection S) (c : Connection S) (a x y : Bytes)
      → take_next service relay extra moment more (with_buffer c a) (some (x, y))
        ≡ carry more (step c x) y
  unfolding take_next carry step
  next-carry more c a x y =
      ap (λ (d : Connection S). elim d.is_open [ true ↦ more d | false ↦ d ])
        (step-with_buffer c y x)

  -- A round of the loop, by what the search for a line end finds.
  round : ℕ → Connection S → Bytes → Option (Bytes × Bytes) → Connection S
  round n c a none = with_buffer c a
  round n c a (some (x, y)) = carry (rounds n) (step c x) y

  rounds-round :
      (n : ℕ) (c : Connection S) (a : Bytes)
      → rounds (suc n) (with_buffer c a) ≡ round n c a (cut_text crlf a)
  unfolding rounds take_lines round take_next
  rounds-round n c a = of_found (cut_text crlf a)
    where
      of_found :
          (found : Option (Bytes × Bytes))
          → take_next service relay extra moment (rounds n) (with_buffer c a) found
            ≡ round n c a found
      of_found none = refl
      of_found (some (x, y)) = next-carry (rounds n) c a x y

  rounds-blank : (n : ℕ) (c : Connection S) → rounds n (with_buffer c []) ≡ with_buffer c []
  unfolding rounds take_lines cut_text take_next
  rounds-blank zero c = refl
  rounds-blank (suc n) c = refl

  same_round :
      (n k : ℕ) (c : Connection S) (a : Bytes) (found : Option (Bytes × Bytes))
      → Extends a found []
      → ((d : Connection S) (y : Bytes)
          → length y < length a
          → rounds n (with_buffer d y) ≡ rounds k (with_buffer d y))
      → round n c a found ≡ round k c a found
  unfolding Extends round carry
  same_round n k c a none h again = refl
  same_round n k c a (some (x, y)) h again = ground (arith, again (step c x) y h.1)

  -- More fuel than the text is long changes nothing.
  rounds-fuel :
      (n k : ℕ) (c : Connection S) (a : Bytes)
      → length a ≤ n
      → length a ≤ k
      → rounds n (with_buffer c a) ≡ rounds k (with_buffer c a)
  rounds-fuel n k c [] hn hk = rounds-blank n c ∙ sym (rounds-blank k c)
  rounds-fuel zero k c (p ∷ a) hn hk = absurd (omega arith)
  rounds-fuel (suc n) zero c (p ∷ a) hn hk = absurd (omega arith)
  rounds-fuel (suc n) (suc k) c (p ∷ a) hn hk =
      rounds-round n c (p ∷ a)
      ∙ same_round n k c (p ∷ a) _ (cut-Extends (p ∷ a) [])
          (λ d y h. rounds-fuel n k d y (omega arith) (omega arith))
      ∙ sym (rounds-round k c (p ∷ a))

  rounds-fuel-suc :
      (n : ℕ) (c : Connection S) (a : Bytes)
      → length a ≤ n
      → rounds n (with_buffer c a) ≡ rounds (suc n) (with_buffer c a)
  rounds-fuel-suc n c a h = rounds-fuel n (suc n) c a h (omega arith)

  -- What the first rounds leave takes the rest of the text, if the connection is still open.
  resume : ℕ → Connection S → Bytes → Connection S
  resume k c b = carry (rounds k) c (c.buffer ++ b)

  carry-open :
      (more : Connection S → Connection S) (c : Connection S) (y : Bytes)
      → c.is_open ≡ true
      → carry more c y ≡ more (with_buffer c y)
  unfolding carry
  carry-open more c y up = rw up refl

  carry-closed :
      (more : Connection S → Connection S) (c : Connection S) (y : Bytes)
      → c.is_open ≡ false
      → carry more c y ≡ with_buffer c y
  unfolding carry
  carry-closed more c y down = ground arith

  carry-resume :
      (m n k : ℕ) (d : Connection S) (y b : Bytes)
      → (d.is_open ≡ true
          → rounds n (with_buffer d (y ++ b)) ≡ resume k (rounds m (with_buffer d y)) b)
      → carry (rounds n) d (y ++ b) ≡ resume k (carry (rounds m) d y) b
  unfolding carry resume
  carry-resume m n k d y b again = ground (arith, again)

  resume_round :
      (m n k : ℕ) (c : Connection S) (a b : Bytes) (found : Option (Bytes × Bytes))
      → c.is_open ≡ true
      → length (a ++ b) ≤ n
      → length (a ++ b) ≤ k
      → cut_text crlf a ≡ found
      → Extends a found b
      → ((d : Connection S) (y : Bytes)
          → d.is_open ≡ true
          → length y < length a
          → rounds n (with_buffer d (y ++ b)) ≡ resume k (rounds m (with_buffer d y)) b)
      → rounds (suc n) (with_buffer c (a ++ b)) ≡ resume k (rounds (suc m) (with_buffer c a)) b
  unfolding Extends round carry resume
  resume_round m n k c a b none up hn hk e h again =
      rounds-fuel (suc n) k c (a ++ b) (omega (arith, hn)) hk
      ∙ sym (carry-open (rounds k) (with_buffer c a) (a ++ b) up)
      ∙ ap (λ d. resume k d b) (sym (rounds-round m c a ∙ ap (round m c a) e))
  resume_round m n k c a b (some (x, y)) up hn hk e h again =
      rounds-round n c (a ++ b)
      ∙ ap (round n c (a ++ b)) h.0
      ∙ carry-resume m n k (step c x) y b (λ going. again (step c x) y going h.1)
      ∙ ap (λ d. resume k d b) (sym (rounds-round m c a ∙ ap (round m c a) e))

  -- Taking the rounds of a text in two parts is taking them at once.
  rounds-resume :
      (m n k : ℕ) (c : Connection S) (a b : Bytes)
      → c.is_open ≡ true
      → length a ≤ m
      → length (a ++ b) ≤ n
      → length (a ++ b) ≤ k
      → rounds (suc n) (with_buffer c (a ++ b)) ≡ resume k (rounds (suc m) (with_buffer c a)) b
  rounds-resume zero n k c a b up hm hn hk =
      resume_round zero n k c a b _ up hn hk refl (cut-Extends a b)
        (λ d y going h. absurd (omega arith))
  rounds-resume (suc m) zero k c a b up hm hn hk =
      resume_round (suc m) zero k c a b _ up hn hk refl (cut-Extends a b)
        (λ d y going h. absurd (omega (arith, length-append a b)))
  rounds-resume (suc m) (suc n) k c a b up hm hn hk =
      resume_round (suc m) (suc n) k c a b _ up hn hk refl (cut-Extends a b) (λ d y going h.
        rounds-resume m n k d y b going (omega arith)
          (omega (arith, length-append a b, length-append y b))
          (omega (arith, length-append a b, length-append y b)))

  round-done :
      (n : ℕ) (c : Connection S) (a : Bytes) (found : Option (Bytes × Bytes))
      → cut_text crlf a ≡ found
      → Extends a found []
      → ((d : Connection S) (y : Bytes)
          → length y < length a
          → (rounds n (with_buffer d y)).is_open ≡ true
          → cut_text crlf (rounds n (with_buffer d y)).buffer ≡ none)
      → (round n c a found).is_open ≡ true
      → cut_text crlf (round n c a found).buffer ≡ none
  unfolding Extends round carry
  round-done n c a none e h again up = e
  round-done n c a (some (x, y)) e h again up = ground (arith, again (step c x) y h.1)

  rounds-done :
      (n : ℕ) (c : Connection S) (a : Bytes)
      → length a ≤ n
      → (rounds n (with_buffer c a)).is_open ≡ true
      → cut_text crlf (rounds n (with_buffer c a)).buffer ≡ none
  unfolding cut_text
  rounds-done zero c [] h up =
      ap (λ (d : Connection S). cut_text crlf d.buffer) (rounds-blank zero c)
  rounds-done zero c (p ∷ a) h up = absurd (omega arith)
  rounds-done (suc n) c a h up =
      subst (λ (d : Connection S). d.is_open ≡ true → cut_text crlf d.buffer ≡ none)
        (sym (rounds-round n c a))
        (round-done n c a _ refl (cut-Extends a [])
          (λ d y shorter. rounds-done n d y (omega arith)))
        up

  -- All of an open connection, and of a closed one all but the text that is left in the buffer.
  abbrev pub outcome : Connection S → Connection S
  outcome c = elim c.is_open [ true ↦ c | false ↦ with_buffer c [] ]

  closed-outcome :
      (c : Connection S) (b : Bytes) → c.is_open ≡ false → outcome (with_buffer c b) ≡ outcome c
  closed-outcome c b down = rw down refl

  got : Connection S → Bytes → Connection S
  got = receive service relay extra moment

  got-open :
      (c : Connection S) (a : Bytes)
      → c.is_open ≡ true
      → got c a ≡ rounds (length (c.buffer ++ c_string a)) (with_buffer c (c.buffer ++ c_string a))
  unfolding got receive rounds
  got-open c a up = ground arith

  -- The loop over the lines of the SMTP server is given enough rounds: on a connection that is open
  -- before and after some bytes are received, no complete line is left in the buffer.
  pub receive-no_line :
      (c : Connection S) (received : Bytes)
      → c.is_open ≡ true
      → (receive service relay extra moment c received).is_open ≡ true
      → cut_text crlf (receive service relay extra moment c received).buffer ≡ none
  unfolding got
  receive-no_line c received up going =
      subst (λ (d : Connection S). d.is_open ≡ true → cut_text crlf d.buffer ≡ none)
        (sym (got-open c received up))
        (rounds-done _ c (c.buffer ++ c_string received) (omega arith)) going

  got-rounds :
      (c : Connection S) (a : Bytes) (n : ℕ)
      → c.is_open ≡ true
      → Lacks 0 a
      → length (c.buffer ++ a) ≤ n
      → got c a ≡ rounds n (with_buffer c (c.buffer ++ a))
  got-rounds c a n up clean h =
      got-open c a up
      ∙ ap (λ t. rounds (length (c.buffer ++ t)) (with_buffer c (c.buffer ++ t)))
          (c_string-Lacks a clean)
      ∙ rounds-fuel (length (c.buffer ++ a)) n c (c.buffer ++ a) (omega arith) h

  got-closed : (c : Connection S) (a : Bytes) → c.is_open ≡ false → got c a ≡ c
  unfolding got receive
  got-closed c a down = rw down refl

  resume-got :
      (k : ℕ) (d : Connection S) (b : Bytes)
      → Lacks 0 b
      → length (d.buffer ++ b) ≤ k
      → outcome (resume k d b) ≡ outcome (got d b)
  unfolding resume
  resume-got k d b clean h = elim (Bool-cases d.is_open) [
    | inl up ↦
        ap (λ c. outcome c)
          (carry-open (rounds k) d (d.buffer ++ b) up ∙ sym (got-rounds d b k up clean h))
    | inr down ↦
        ap (λ c. outcome c) (carry-closed (rounds k) d (d.buffer ++ b) down)
        ∙ closed-outcome d (d.buffer ++ b) down
        ∙ ap (λ c. outcome c) (sym (got-closed d b down))
  ]

  got-got-open :
      (c : Connection S) (a b : Bytes)
      → c.is_open ≡ true
      → Lacks 0 a
      → Lacks 0 b
      → outcome (got c (a ++ b)) ≡ outcome (got (got c a) b)
  got-got-open c a b up clean_a clean_b =
      let d = got c a in
      let n = length ((c.buffer ++ a) ++ b) in
      let k = n + length (d.buffer ++ b) in
      ap (λ c. outcome c)
        (got-rounds c (a ++ b) (suc n) up (All-append (λ x. (x == 0) ≡ false) a b clean_a clean_b)
            (omega (arith, ap length (append_assoc c.buffer a b)))
          ∙ ap (λ (t : Bytes). rounds (suc n) (with_buffer c t)) (sym (append_assoc c.buffer a b))
          ∙ rounds-resume n n k c (c.buffer ++ a) b up
              (omega (arith, length-append (c.buffer ++ a) b)) (omega arith) (omega arith)
          ∙ ap (λ e. resume k e b)
              (sym (
                got-rounds c a (suc n) up clean_a
                  (omega (arith, length-append (c.buffer ++ a) b)))))
      ∙ resume-got k d b clean_b (omega arith)

  got-got :
      (c : Connection S) (a b : Bytes)
      → Lacks 0 a
      → Lacks 0 b
      → outcome (got c (a ++ b)) ≡ outcome (got (got c a) b)
  got-got c a b clean_a clean_b = elim (Bool-cases c.is_open) [
    | inl up ↦ got-got-open c a b up clean_a clean_b
    | inr down ↦ rw (got-closed c (a ++ b) down, got-closed c a down, got-closed c b down) refl
  ]

  Lacks-concat : (pieces : List Bytes) → All (Lacks 0) pieces → Lacks 0 (concat pieces)
  unfolding concat
  Lacks-concat [] h = tt
  Lacks-concat (a ∷ pieces) h =
      All-append (λ x. (x == 0) ≡ false) a (concat pieces) h.0 (Lacks-concat pieces h.1)

  -- Where the network cuts what a client sends does not matter: on any connection, receiving pieces
  -- without zero bytes one by one leaves the same connection as receiving them at once, with the
  -- same store, session, replies, messages to other servers and waiting text; only in the buffer of
  -- a connection that is closed afterwards may the text differ.
  pub receive_all-concat :
      (c : Connection S) (a : Bytes) (pieces : List Bytes)
      → All (Lacks 0) (a ∷ pieces)
      → outcome (receive_all service relay extra moment c (a ∷ pieces))
        ≡ outcome (receive service relay extra moment c (concat (a ∷ pieces)))
  unfolding receive_all concat got
  receive_all-concat c a [] h = rw (append-nil a) refl
  receive_all-concat c a (b ∷ pieces) h =
      receive_all-concat (got c a) b pieces h.1
      ∙ sym (got-got c a (concat (b ∷ pieces)) h.0 (Lacks-concat (b ∷ pieces) h.1))
