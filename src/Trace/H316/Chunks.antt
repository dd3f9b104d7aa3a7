-- ===== src/Trace/H316/Chunks.antt =====
-- What the reassembly of received chunks puts together, and what it keeps apart.
use arpanet_redux.Prelude.{
  ℕ, ◌+◌, ◌≡◌, refl, sym, ap, subst, none, ◌∙◌, true, false, Bool-cases, inl, inr, List, [], ◌∷◌,
  ◌++◌, map, append_assoc, length, length-append, All, All-append, arith,
}
use arpanet_redux.Trace.H316.{
  Line, H316TraceTransfer, PendingTransfer, parse_lines, transfers, continues, joined,
  reassemble_after, reassemble_received_chunks, parse_h316_trace,
}
use arpanet_redux.Trace.H316.Groups.{
  SameMessage, continues_iff, Group, members, IsGroup, Separate, whole, add, joined-whole, alone,
  whole-alone,
}

reassemble_joined :
    (t u : H316TraceTransfer) (us : List H316TraceTransfer)
    → continues t u ≡ true
    → reassemble_after t (u ∷ us) ≡ reassemble_after (joined t u) us
unfolding reassemble_after
reassemble_joined t u us e = rw (e, reassemble_after)

reassemble_apart :
    (t u : H316TraceTransfer) (us : List H316TraceTransfer)
    → continues t u ≡ false
    → reassemble_after t (u ∷ us) ≡ t ∷ reassemble_after u us
unfolding reassemble_after
reassemble_apart t u us e = rw (e, reassemble_after)

-- The transfers fall into groups, of which the first begins with `t`, and `rs` are the wholes.
record Grouped (t : H316TraceTransfer) (ts rs : List H316TraceTransfer) : Type 0 where
  pub head : Group
  pub tail : List Group
  pub wholes : rs ≡ map whole (head ∷ tail)
  pub begins : head.first ≡ t
  pub all : members (head ∷ tail) ≡ t ∷ ts
  pub grouped : All IsGroup (head ∷ tail)
  pub separate : Separate (head ∷ tail)

apart_not : (t u : H316TraceTransfer) → continues t u ≡ false → ¬ SameMessage t u
apart_not t u e h = cc (e, (continues_iff t u).1 h)

reassemble_after-Grouped :
    (g : Group) (ts : List H316TraceTransfer)
    → IsGroup g
    → Grouped g.first (g.rest ++ ts) (reassemble_after (whole g) ts)
reassemble_after-Grouped g [] h =
    unfold reassemble_after in
    record {
      head = g;
      tail = [];
      wholes = refl;
      begins = refl;
      all = refl;
      grouped = (h, tt);
      separate = tt;
    }
reassemble_after-Grouped g (u ∷ us) h = elim (Bool-cases (continues g.first u)) [
  | inl e ↦
      let same = (continues_iff g.first u).0 e in
      let k =
        reassemble_after-Grouped (add g u) us
          (All-append (SameMessage g.first) g.rest (u ∷ []) (h, (same, tt))) in
      subst (Grouped g.first (g.rest ++ (u ∷ us)))
        (sym (
          reassemble_joined (whole g) u us (unfold continues in e)
          ∙ ap (λ t. reassemble_after t us) (joined-whole g u)))
        (subst (λ ts. Grouped g.first ts (reassemble_after (whole (add g u)) us))
          (append_assoc g.rest (u ∷ []) us) k)
  | inr e ↦
      let k = reassemble_after-Grouped (alone u) us tt in
      subst (Grouped g.first (g.rest ++ (u ∷ us)))
        (sym (
          reassemble_apart (whole g) u us (unfold continues in e)
          ∙ ap (λ t. whole g ∷ reassemble_after t us) (sym (whole-alone u))))
        (record {
          head = g;
          tail = k.head ∷ k.tail;
          wholes = ap (λ ts. whole g ∷ ts) k.wholes;
          begins = refl;
          all = ap (λ ts. g.first ∷ (g.rest ++ ts)) k.all;
          grouped = (h, k.grouped);
          separate = (
            subst (λ t. ¬ SameMessage g.first t) (sym k.begins) (apart_not g.first u e),
            k.separate,
          );
        })
]

-- A transfer that counts as complete has as many words as it declares.
abbrev pub IsCounted : H316TraceTransfer → Type 0
IsCounted t = t.complete ≡ true → length t.words ≡ t.declared_word_count

transfers-IsCounted : (n : ℕ) (ps : List PendingTransfer) → All IsCounted (transfers n ps)
transfers-IsCounted n [] = tt
transfers-IsCounted n (p ∷ ps) = (λ h. ground arith, transfers-IsCounted (n + 1) ps)

joined-IsCounted : (t u : H316TraceTransfer) → IsCounted t → IsCounted u → IsCounted (joined t u)
joined-IsCounted t u a b h =
    let both : (t.complete ≡ true) × (u.complete ≡ true) = ground arith in
    omega (arith, length-append t.words u.words, a both.0, b both.1)

reassemble_after-IsCounted :
    (t : H316TraceTransfer) (ts : List H316TraceTransfer)
    → IsCounted t
    → All IsCounted ts
    → All IsCounted (reassemble_after t ts)
reassemble_after-IsCounted t [] h hs = unfold reassemble_after in (h, tt)
reassemble_after-IsCounted t (u ∷ us) h (g, hs) = elim (Bool-cases (continues t u)) [
  | inl e ↦
      subst (All IsCounted) (sym (reassemble_joined t u us e))
        (reassemble_after-IsCounted (joined t u) us (joined-IsCounted t u h g) hs)
  | inr e ↦
      subst (All IsCounted) (sym (reassemble_apart t u us e))
        (h, reassemble_after-IsCounted u us g hs)
]

-- The transfers `rs` are the wholes of groups, and the members of these are `ts`.
abbrev pub PutTogether : List H316TraceTransfer → List H316TraceTransfer → Type 0
PutTogether ts rs =
    (gs : List Group) × (members gs ≡ ts) × (rs ≡ map whole gs) × All IsGroup gs × Separate gs

reassemble_received_chunks-PutTogether :
    (ts : List H316TraceTransfer) → PutTogether ts (reassemble_received_chunks ts)
unfolding reassemble_received_chunks
reassemble_received_chunks-PutTogether [] = ([], refl, refl, tt, tt)
reassemble_received_chunks-PutTogether (t ∷ ts) =
    let k = reassemble_after-Grouped (alone t) ts tt in
    (
      k.head ∷ k.tail,
      k.all,
      ap (λ u. reassemble_after u ts) (sym (whole-alone t)) ∙ k.wholes,
      k.grouped,
      k.separate,
    )

reassemble_received_chunks-IsCounted :
    (ts : List H316TraceTransfer) → All IsCounted ts → All IsCounted (reassemble_received_chunks ts)
unfolding reassemble_received_chunks
reassemble_received_chunks-IsCounted [] h = tt
reassemble_received_chunks-IsCounted (t ∷ ts) (h, hs) = reassemble_after-IsCounted t ts h hs

-- The transfers that the loop finds fall, in their order, into groups: each further member is a
-- received chunk of the message of the first one (the same device, the same message number), and no
-- group begins with a chunk of the message before it. A trace gives one transfer for each group: its
-- first chunk with the words of all, the sum of the declared counts, complete exactly if all are. And
-- a transfer that counts as complete has as many words as it declares.
pub parse_h316_trace-reassembled :
    (lines : List Line)
    → PutTogether (transfers 1 (parse_lines lines none (λ t d. none))) (parse_h316_trace lines)
      × All IsCounted (parse_h316_trace lines)
unfolding parse_h316_trace
parse_h316_trace-reassembled lines =
    let found = parse_lines lines none (λ t d. none) in
    (
      reassemble_received_chunks-PutTogether (transfers 1 found),
      reassemble_received_chunks-IsCounted (transfers 1 found) (transfers-IsCounted 1 found),
    )
