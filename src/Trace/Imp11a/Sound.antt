-- ===== src/Trace/Imp11a/Sound.antt =====
-- A trace that `parse_imp11a_trace` accepts is written as the messages that it gives.
use arpanet_redux.Prelude.{
  ℕ, ◌+◌, ◌≤◌, ◌<◌, ◌≡◌, ◌≢◌, refl, sym, ap, subst, ◌∙◌, Option, none, some, List, [], ◌∷◌, ◌++◌,
  append-nil, append_assoc, length, length-append, ok, >>=-eq-ok, ok-injective, arith,
}
use arpanet_redux.Trace.Imp11a.{
  Line, unmarked, malformed, message, dma, complete, Imp11aInputWord, Imp11aInputMessage,
  PendingMessage, stored_word, check_message, check_complete, parse_lines,
}
use arpanet_redux.Trace.Imp11a.Format.{
  marked, store, stores, written, IsStored, Stored, last_tick, Messages, check_message_iff,
  check_complete_iff, stored_word-eq-ok,
}

abbrev pub finish_message : PendingMessage → List Imp11aInputWord → ℕ → Imp11aInputMessage
finish_message p ws tick = record {
  source_local_sequence = p.sequence;
  start_tick = p.start_tick;
  complete_tick = tick;
  words = p.words ++ ws;
}

-- What is left of a trace in the middle of a message: its other words, its end, and messages.
record Ends (p : PendingMessage) (t : ℕ) (rs : List Line) (ms : List Imp11aInputMessage)
    : Type 0 where
  pub words : List Imp11aInputWord
  pub tick : ℕ
  pub rest : List Imp11aInputMessage
  pub whole : ms ≡ finish_message p words tick ∷ rest
  pub shown :
      marked rs
      ≡ stores p.sequence words
          (complete tick p.sequence (length (p.words ++ words)) ∷ written rest)
  pub stored : Stored (length p.words) t words
  pub later : last_tick t words ≤ tick
  pub nonempty : p.words ++ words ≢ []
  pub follows : Messages (some p.sequence) (some tick) rest

abbrev pub add_word : PendingMessage → Imp11aInputWord → PendingMessage
add_word p w = record p { words = p.words ++ (w ∷ []) }

length-ne_nil : (ws : List Imp11aInputWord) → 0 < length ws → ws ≢ []
length-ne_nil ws h e = omega (arith, ap length e)

pub length-pos : (ws : List Imp11aInputWord) → ws ≢ [] → 0 < length ws
length-pos [] h = absurd (h refl)
length-pos (w ∷ ws) h = omega arith

Ends-store :
    (p : PendingMessage) (t : ℕ) (rs : List Line) (ms : List Imp11aInputMessage)
    (w : Imp11aInputWord)
    → w.word_index ≡ length p.words
    → IsStored w
    → t ≤ w.store_tick
    → Ends (add_word p w) w.store_tick rs ms
    → Ends p t (dma (store p.sequence w) ∷ rs) ms
Ends-store p t rs ms w i s l e =
    let joined = append_assoc p.words (w ∷ []) e.words in
    let count : length (p.words ++ (w ∷ [])) ≡ length p.words + 1 =
      length-append p.words (w ∷ []) in
    record {
      words = w ∷ e.words;
      tick = e.tick;
      rest = e.rest;
      whole =
          e.whole ∙ ap (λ ws. record (finish_message p [] e.tick) { words = ws } ∷ e.rest) joined;
      shown =
          ap (λ ls. dma (store p.sequence w) ∷ ls)
            (e.shown
              ∙ ap
                  (λ ws.
                    stores p.sequence e.words
                      (complete e.tick p.sequence (length ws) ∷ written e.rest))
                  joined);
      stored = (i, s, l, subst (λ k. Stored k w.store_tick e.words) count e.stored);
      later = e.later;
      nonempty = λ n. e.nonempty (joined ∙ n);
      follows = e.follows;
    }

mutual
  unfolding parse_lines

  -- A trace that is accepted from between two messages on.
  pub parse_lines-Messages :
      (rs : List Line) (n t : Option ℕ) (ms : List Imp11aInputMessage)
      → parse_lines rs none n t ≡ ok ms
      → (marked rs ≡ written ms) × Messages n t ms
  parse_lines-Messages [] n t ms h =
      subst (λ l. ([] ≡ written l) × Messages n t l) (ok-injective h) (refl, tt)
  parse_lines-Messages (unmarked ∷ rs) n t ms h = parse_lines-Messages rs n t ms h
  parse_lines-Messages (malformed ∷ rs) n t ms h = cc
  parse_lines-Messages (dma d ∷ rs) n t ms h = cc
  parse_lines-Messages (complete tick sequence k ∷ rs) n t ms h = cc
  parse_lines-Messages (message tick sequence ∷ rs) n t ms h =
      let (_, c, h1) = >>=-eq-ok (check_message tick sequence n t) _ h in
      let (a, b, d) = (check_message_iff tick sequence n t).0 c in
      let p : PendingMessage = record { sequence = sequence; start_tick = tick; words = [] } in
      let e = parse_lines-Ends rs p tick ms h1 in
      subst (λ l. (message tick sequence ∷ marked rs ≡ written l) × Messages n t l) (sym e.whole)
        (
          ap (λ ls. message tick sequence ∷ ls) e.shown,
          (a, b, d, e.nonempty, e.stored, e.later, e.follows),
        )

  -- A trace that is accepted from the middle of a message on.
  parse_lines-Ends :
      (rs : List Line) (p : PendingMessage) (t : ℕ) (ms : List Imp11aInputMessage)
      → parse_lines rs (some p) (some p.sequence) (some t) ≡ ok ms
      → Ends p t rs ms
  parse_lines-Ends [] p t ms h = cc
  parse_lines-Ends (unmarked ∷ rs) p t ms h =
      let e = parse_lines-Ends rs p t ms h in
      record {
        words = e.words;
        tick = e.tick;
        rest = e.rest;
        whole = e.whole;
        shown = e.shown;
        stored = e.stored;
        later = e.later;
        nonempty = e.nonempty;
        follows = e.follows;
      }
  parse_lines-Ends (malformed ∷ rs) p t ms h = cc
  parse_lines-Ends (message tick sequence ∷ rs) p t ms h = cc
  parse_lines-Ends (dma d ∷ rs) p t ms h =
      let (w, c, h1) = >>=-eq-ok (stored_word d p (some t)) _ h in
      let (same, i, s, l) = stored_word-eq-ok d p t w c in
      let at : d.tick ≡ w.store_tick = ap (λ x. x.tick) same in
      let e = parse_lines-Ends rs (add_word p w) w.store_tick ms (
        subst (λ k. parse_lines rs (some (add_word p w)) (some p.sequence) (some k) ≡ ok ms) at
          h1) in
      subst (λ x. Ends p t (dma x ∷ rs) ms) (sym same) (Ends-store p t rs ms w i s l e)
  parse_lines-Ends (complete tick sequence k ∷ rs) p t ms h =
      let (_, c, h1) = >>=-eq-ok (check_complete tick sequence k p (some t)) _ h in
      let (a, b, d, l) = (check_complete_iff tick sequence k p t).0 c in
      let (rest, q, h2) = >>=-eq-ok (parse_lines rs none (some p.sequence) (some tick)) _ h1 in
      let (shown, follows) = parse_lines-Messages rs (some p.sequence) (some tick) rest q in
      let none_more = append-nil p.words in
      record {
        words = [];
        tick = tick;
        rest = rest;
        whole = sym (ok-injective h2) ∙ cc;
        shown = cc;
        stored = tt;
        later = l;
        nonempty = λ n. length-ne_nil p.words (omega arith) (sym none_more ∙ n);
        follows = follows;
      }
