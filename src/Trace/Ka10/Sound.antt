-- ===== src/Trace/Ka10/Sound.antt =====
-- A trace that `parse_ka10_imp_trace` accepts is written as the messages that it gives.
use arpanet_redux.Prelude.{
  ℕ, ◌+◌, ◌≡◌, inl, inr, refl, sym, ap, subst, ◌∙◌, true, false, Bool-cases, Option, some, List, [],
  ◌∷◌, ◌++◌, append_assoc, length, length-append, ok, >>=-eq-ok, ok-injective, arith,
}
use arpanet_redux.Trace.Ka10.{
  Line, malformed, message, assembly, consume, Assembly, Consumption, Ka10ImpInputWord,
  Ka10ImpInputMessage, PendingMessage, idle, reading, width_of, check_message, check_assembly,
  check_consume, input_word, add_word, reconstruct, input_message, new_message, parse_lines,
}
use arpanet_redux.Trace.Ka10.Format.{
  assembly_of, consumption_of, pairs, written, Consumed, last_tick, Messages, check_message_iff,
  IsAssembled, check_assembly_iff, IsConsumed, check_consume_iff, accepted_pair,
}

pub width_of-append :
    (ws : List Ka10ImpInputWord) (w : Ka10ImpInputWord)
    → width_of (ws ++ (w ∷ [])) ≡ width_of ws + w.width
width_of-append [] w = omega arith
width_of-append (v ∷ ws) w = omega (arith, width_of-append ws w)

abbrev pub with_words : PendingMessage → List Ka10ImpInputWord → PendingMessage
with_words p ws = record p { words = p.words ++ ws }

-- What is left of a trace in the middle of a message: its other words, and messages.
record Ends (p : PendingMessage) (t : ℕ) (rs : List Line) (ms : List Ka10ImpInputMessage)
    : Type 0 where
  pub words : List Ka10ImpInputWord
  pub content : List ℕ
  pub rest : List Ka10ImpInputMessage
  pub whole : ms ≡ input_message (with_words p words) content ∷ rest
  pub shown : rs ≡ pairs p.sequence p.bit_count words (written rest)
  pub consumed : Consumed p.bit_count (length p.words) (width_of p.words) t words
  pub made : reconstruct (with_words p words) ≡ ok content
  pub follows : Messages (some p.sequence) (some (last_tick t words)) rest

module _ (a : Assembly) (c : Consumption) (p : PendingMessage) (t : ℕ) (rs : List Line)
    (ms : List Ka10ImpInputMessage) (h : IsAssembled a p t) (k : IsConsumed c a p a.tick) where
  abbrev word : Ka10ImpInputWord
  word = input_word c a

  -- The two lines of a word in front of the lines of others.
  pair-shown :
      (ws : List Ka10ImpInputWord) (after : List Line)
      → rs ≡ pairs p.sequence p.bit_count ws after
      → assembly a ∷ consume c ∷ rs ≡ pairs p.sequence p.bit_count (word ∷ ws) after
  pair-shown ws after e =
      let (f, g, _) = accepted_pair a c p t h k in
      ap (λ x. assembly x ∷ consume c ∷ rs) f
      ∙ (ap (λ x. assembly (assembly_of p.sequence p.bit_count word) ∷ consume x ∷ rs) g
          ∙ ap
              (λ ls.
                assembly (assembly_of p.sequence p.bit_count word)
                ∷ consume (consumption_of p.sequence word)
                ∷ ls)
              e)

  Ends-more :
      c.last ≡ false
      → Ends (add_word p word) c.tick rs ms
      → Ends p t (assembly a ∷ consume c ∷ rs) ms
  Ends-more l e =
      let joined = append_assoc p.words (word ∷ []) e.words in
      let fits = (accepted_pair a c p t h k).2 in
      record {
        words = word ∷ e.words;
        content = e.content;
        rest = e.rest;
        whole =
            e.whole ∙ ap (λ ws. input_message (record p { words = ws }) e.content ∷ e.rest) joined;
        shown = pair-shown e.words (written e.rest) e.shown;
        consumed = (
          fits,
          inr (
            l,
            subst (λ s. Consumed p.bit_count (length p.words + 1) s c.tick e.words)
                (width_of-append p.words word)
                (subst
                  (λ i. Consumed p.bit_count i (width_of (p.words ++ (word ∷ []))) c.tick e.words)
                  (length-append p.words (word ∷ [])) e.consumed),
          ),
        );
        made = subst (λ ws. reconstruct (record p { words = ws }) ≡ ok e.content) joined e.made;
        follows = e.follows;
      }

  Ends-last :
      (content : List ℕ) (rest : List Ka10ImpInputMessage)
      → c.last ≡ true
      → reconstruct (add_word p word) ≡ ok content
      → ms ≡ input_message (add_word p word) content ∷ rest
      → rs ≡ written rest
      → Messages (some p.sequence) (some c.tick) rest
      → Ends p t (assembly a ∷ consume c ∷ rs) ms
  Ends-last content rest l made whole shown follows = record {
    words = word ∷ [];
    content = content;
    rest = rest;
    whole = whole;
    shown = pair-shown [] (written rest) shown;
    consumed = ((accepted_pair a c p t h k).2, inl (l, refl));
    made = made;
    follows = follows;
  }

mutual
  unfolding parse_lines

  -- A trace that is accepted from between two messages on.
  pub parse_lines-Messages :
      (rs : List Line) (n t : Option ℕ) (ms : List Ka10ImpInputMessage)
      → parse_lines rs idle n t ≡ ok ms
      → (rs ≡ written ms) × Messages n t ms
  parse_lines-Messages [] n t ms h =
      subst (λ l. ([] ≡ written l) × Messages n t l) (ok-injective h) (refl, tt)
  parse_lines-Messages (malformed ∷ rs) n t ms h = cc
  parse_lines-Messages (assembly a ∷ rs) n t ms h = cc
  parse_lines-Messages (consume c ∷ rs) n t ms h = cc
  parse_lines-Messages (message tick sequence bits ∷ rs) n t ms h =
      let (_, c, h1) = >>=-eq-ok (check_message tick sequence bits n t) _ h in
      let (a, b, d, f) = (check_message_iff tick sequence bits n t).0 c in
      let e = parse_lines-Ends rs (new_message tick sequence bits) tick ms h1 in
      subst (λ l. (message tick sequence bits ∷ rs ≡ written l) × Messages n t l) (sym e.whole)
        (
          ap (λ ls. message tick sequence bits ∷ ls) e.shown,
          (a, b, d, f, e.consumed, e.made, e.follows),
        )

  -- A trace that is accepted from the middle of a message on.
  parse_lines-Ends :
      (rs : List Line) (p : PendingMessage) (t : ℕ) (ms : List Ka10ImpInputMessage)
      → parse_lines rs (reading p) (some p.sequence) (some t) ≡ ok ms
      → Ends p t rs ms
  parse_lines-Ends [] p t ms h = cc
  parse_lines-Ends (malformed ∷ rs) p t ms h = cc
  parse_lines-Ends (message tick sequence bits ∷ rs) p t ms h = cc
  parse_lines-Ends (consume c ∷ rs) p t ms h = cc
  parse_lines-Ends (assembly a ∷ []) p t ms h =
      let (_, _, h1) = >>=-eq-ok (check_assembly a p (some t)) _ h in cc
  parse_lines-Ends (assembly a ∷ malformed ∷ rs) p t ms h =
      let (_, _, h1) = >>=-eq-ok (check_assembly a p (some t)) _ h in cc
  parse_lines-Ends (assembly a ∷ message tick sequence bits ∷ rs) p t ms h =
      let (_, _, h1) = >>=-eq-ok (check_assembly a p (some t)) _ h in cc
  parse_lines-Ends (assembly a ∷ assembly b ∷ rs) p t ms h =
      let (_, _, h1) = >>=-eq-ok (check_assembly a p (some t)) _ h in cc
  parse_lines-Ends (assembly a ∷ consume c ∷ rs) p t ms h =
      let (_, x, h1) = >>=-eq-ok (check_assembly a p (some t)) _ h in
      let (_, y, h2) = >>=-eq-ok (check_consume c a p (some a.tick)) _ h1 in
      let is = (check_assembly_iff a p t).0 x in
      let was = (check_consume_iff c a p a.tick).0 y in
      let q = add_word p (input_word c a) in
      elim (Bool-cases c.last) [
        | inl l ↦
            let h3 = rw l at h2 in
            let (content, made, h4) = >>=-eq-ok (reconstruct q) _ h3 in
            let (rest, r, h5) =
              >>=-eq-ok (parse_lines rs idle (some p.sequence) (some c.tick)) _ h4 in
            let (shown, follows) = parse_lines-Messages rs (some p.sequence) (some c.tick) rest r in
            Ends-last a c p t rs ms is was content rest l made (sym (ok-injective h5)) shown follows
        | inr l ↦
            let h3 = rw l at h2 in
            Ends-more a c p t rs ms is was l (parse_lines-Ends rs q c.tick ms h3)
      ]
