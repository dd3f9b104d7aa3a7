-- ===== src/Trace/H316/Groups.antt =====
-- Received chunks of one message, and the transfer that they make together.
use arpanet_redux.Prelude.{
  ℕ, ◌+◌, ◌≡◌, ◌↔◌, refl, sym, ap, Option, some, none, ◌∙◌, Bool, true, ◌&&◌, List, [], ◌∷◌, ◌++◌,
  append_assoc, append-nil, All, same_text, same_text_iff, arith,
}
use arpanet_redux.Trace.H316.{
  Action, received, is_received, same_number, H316TraceTransfer, continues, joined,
}

-- The transfers are received chunks of one message: of the same device, with the same number.
abbrev pub SameMessage : H316TraceTransfer → H316TraceTransfer → Type 0
SameMessage t u =
    (t.action ≡ received)
    × (u.action ≡ received)
    × (t.device ≡ u.device)
    × ((n : ℕ) × (t.message_number ≡ some n) × (u.message_number ≡ some n))

is_received_iff : (a : Action) → (is_received a ≡ true) ↔ (a ≡ received)
is_received_iff a = ground arith

same_number_iff :
    (o p : Option ℕ) → (same_number o p ≡ true) ↔ ((n : ℕ) × (o ≡ some n) × (p ≡ some n))
same_number_iff none none = (λ h. cc, λ h. cc (h.1))
same_number_iff none (some m) = (λ h. cc, λ h. cc (h.1))
same_number_iff (some n) none = (λ h. cc, λ h. cc (h.1))
same_number_iff (some n) (some m) =
    (λ h. (n, refl, ground arith), λ h. let (k, p, q) = h in ground arith)

pub continues_iff : (t u : H316TraceTransfer) → (continues t u ≡ true) ↔ SameMessage t u
unfolding continues
continues_iff t u =
    let (a, a') = is_received_iff u.action in
    let (b, b') = is_received_iff t.action in
    let (c, c') = same_text_iff t.device u.device in
    let (d, d') = same_number_iff t.message_number u.message_number in
    (
      λ h.
          let e : is_received u.action ≡ true = ground arith in
          let f : is_received t.action ≡ true = ground arith in
          let g : same_text t.device u.device ≡ true = ground arith in
          let k : same_number t.message_number u.message_number ≡ true = ground arith in
          (b f, a e, c g, d k),
      λ h. let (sent, taken, device, number) = h in rw (a' taken, b' sent, c' device, d' number),
    )

-- A chunk with those that are put together with it.
pub record Group : Type 0 where
  pub first : H316TraceTransfer
  pub rest : List H316TraceTransfer

abbrev pub members : List Group → List H316TraceTransfer
members [] = []
members (g ∷ gs) = g.first ∷ (g.rest ++ members gs)

-- Every further chunk is of the message of the first one.
abbrev pub IsGroup : Group → Type 0
IsGroup g = All (SameMessage g.first) g.rest

-- No group begins with a chunk of the message of the group before it.
abbrev pub Separate : List Group → Type 0
Separate [] = Unit
Separate (g ∷ []) = Unit
Separate (g ∷ h ∷ gs) = ¬ SameMessage g.first h.first × Separate (h ∷ gs)

abbrev pub all_words : List H316TraceTransfer → List ℕ
all_words [] = []
all_words (t ∷ ts) = t.words ++ all_words ts

abbrev pub declared : List H316TraceTransfer → ℕ
declared [] = 0
declared (t ∷ ts) = t.declared_word_count + declared ts

abbrev pub all_complete : List H316TraceTransfer → Bool
all_complete [] = true
all_complete (t ∷ ts) = t.complete && all_complete ts

-- The transfer of a group: the first chunk, with the words and counts of all, complete if all are.
abbrev pub whole : Group → H316TraceTransfer
whole g = record g.first {
  declared_word_count = g.first.declared_word_count + declared g.rest;
  words = g.first.words ++ all_words g.rest;
  complete = g.first.complete && all_complete g.rest;
}

all_words-snoc :
    (ts : List H316TraceTransfer) (u : H316TraceTransfer)
    → all_words (ts ++ (u ∷ [])) ≡ all_words ts ++ u.words
all_words-snoc [] u = append-nil u.words
all_words-snoc (t ∷ ts) u =
    ap (λ ws. t.words ++ ws) (all_words-snoc ts u)
    ∙ sym (append_assoc t.words (all_words ts) u.words)

declared-snoc :
    (ts : List H316TraceTransfer) (u : H316TraceTransfer)
    → declared (ts ++ (u ∷ [])) ≡ declared ts + u.declared_word_count
declared-snoc [] u = omega arith
declared-snoc (t ∷ ts) u = omega (arith, declared-snoc ts u)

and_assoc : (a b c : Bool) → (a && (b && c)) ≡ ((a && b) && c)
and_assoc a b c = ground arith

all_complete-snoc :
    (ts : List H316TraceTransfer) (u : H316TraceTransfer)
    → all_complete (ts ++ (u ∷ [])) ≡ (all_complete ts && u.complete)
all_complete-snoc [] u = ground arith
all_complete-snoc (t ∷ ts) u =
    ap (λ b. t.complete && b) (all_complete-snoc ts u)
    ∙ and_assoc t.complete (all_complete ts) u.complete

abbrev pub add : Group → H316TraceTransfer → Group
add g u = record g { rest = g.rest ++ (u ∷ []) }

same_parts :
    (t : H316TraceTransfer) (n m : ℕ) (ws vs : List ℕ) (b c : Bool)
    → n ≡ m
    → ws ≡ vs
    → b ≡ c
    → Path H316TraceTransfer
        (record t { declared_word_count = n; words = ws; complete = b })
        (record t { declared_word_count = m; words = vs; complete = c })
same_parts t n m ws vs b c p q r = rw (p, q, r)

pub joined-whole : (g : Group) (u : H316TraceTransfer) → joined (whole g) u ≡ whole (add g u)
joined-whole g u =
    same_parts g.first _ _ _ _ _ _ (omega (arith, declared-snoc g.rest u))
      (append_assoc g.first.words (all_words g.rest) u.words
        ∙ ap (λ ws. g.first.words ++ ws) (sym (all_words-snoc g.rest u)))
      (sym (and_assoc g.first.complete (all_complete g.rest) u.complete)
        ∙ ap (λ b. g.first.complete && b) (sym (all_complete-snoc g.rest u)))

-- A chunk that nothing is put together with.
abbrev pub alone : H316TraceTransfer → Group
alone u = record { first = u; rest = [] }

pub whole-alone : (u : H316TraceTransfer) → whole (alone u) ≡ u
whole-alone u = same_parts u _ _ _ _ _ _ (omega arith) (append-nil u.words) (ground arith)
