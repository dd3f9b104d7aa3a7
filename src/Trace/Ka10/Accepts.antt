-- ===== src/Trace/Ka10/Accepts.antt =====
-- The lines of well-formed messages give these messages, so `parse_ka10_imp_trace` accepts exactly them.
use arpanet_redux.Prelude.{
  ℕ, ◌+◌, ◌≡◌, ◌↔◌, inl, inr, refl, sym, ap, subst, ◌∙◌, true, false, Option, none, some, List, [],
  ◌∷◌, ◌++◌, append_assoc, length, length-append, ok, ◌>>=◌, arith,
}
use arpanet_redux.Trace.Ka10.{
  Line, assembly, consume, Assembly, Consumption, Ka10ImpInputWord, Ka10ImpInputMessage,
  PendingMessage, idle, reading, marked, width_of, input_word, add_word, reconstruct, input_message,
  new_message, parse_lines, parse_ka10_imp_trace,
}
use arpanet_redux.Trace.Ka10.Format.{
  assembly_of, consumption_of, pairs, written, Fits, Consumed, last_tick, Messages,
  check_message_iff, IsAssembled, check_assembly_iff, IsConsumed, check_consume_iff,
}
use arpanet_redux.Trace.Ka10.Sound.{width_of-append, with_words, parse_lines-Messages}

module _ (a : Assembly) (c : Consumption) (p : PendingMessage) (t : ℕ) (n : Option ℕ)
    (rs : List Line) (h : IsAssembled a p t) (k : IsConsumed c a p a.tick) where
  step_more :
      c.last ≡ false
      → parse_lines (assembly a ∷ consume c ∷ rs) (reading p) n (some t)
        ≡ parse_lines rs (reading (add_word p (input_word c a))) n (some c.tick)
  unfolding parse_lines
  step_more l = rw ((check_assembly_iff a p t).1 h, (check_consume_iff c a p a.tick).1 k) (simp l)

  step_last :
      (content : List ℕ)
      → c.last ≡ true
      → reconstruct (add_word p (input_word c a)) ≡ ok content
      → parse_lines (assembly a ∷ consume c ∷ rs) (reading p) n (some t) ≡ (
          parse_lines rs idle n (some c.tick) >>= λ ms.
          ok (input_message (add_word p (input_word c a)) content ∷ ms))
  unfolding parse_lines
  step_last content l made =
      let made' =
        subst (λ b. reconstruct (add_word p (record (input_word c a) { last = b })) ≡ ok content) l
          made in
      rw ((check_assembly_iff a p t).1 h, (check_consume_iff c a p a.tick).1 k) (simp (l, made'))

module _ (w : Ka10ImpInputWord) (p : PendingMessage) (t : ℕ)
    (f : Fits p.bit_count (length p.words) (width_of p.words) t w) where
  Fits-IsAssembled : IsAssembled (assembly_of p.sequence p.bit_count w) p t
  Fits-IsAssembled = ground arith

  Fits-IsConsumed :
      IsConsumed
        (consumption_of p.sequence w)
        (assembly_of p.sequence p.bit_count w)
        p
        w.assembly_tick
  Fits-IsConsumed = ground arith

parse_lines-pairs :
    (ws : List Ka10ImpInputWord) (p : PendingMessage) (t : ℕ) (after : List Line) (content : List ℕ)
    → Consumed p.bit_count (length p.words) (width_of p.words) t ws
    → reconstruct (with_words p ws) ≡ ok content
    → parse_lines (pairs p.sequence p.bit_count ws after) (reading p) (some p.sequence) (some t) ≡ (
        parse_lines after idle (some p.sequence) (some (last_tick t ws)) >>= λ ms.
        ok (input_message (with_words p ws) content ∷ ms))
parse_lines-pairs [] p t after content h made = elim h [ ]
parse_lines-pairs (w ∷ ws) p t after content (f, inl (l, e)) made =
    subst
      (λ vs.
        reconstruct (with_words p (w ∷ vs)) ≡ ok content
        → parse_lines (pairs p.sequence p.bit_count (w ∷ vs) after) (reading p) (some p.sequence)
            (some t)
          ≡ (parse_lines after idle (some p.sequence) (some (last_tick t (w ∷ vs))) >>= λ ms.
              ok (input_message (with_words p (w ∷ vs)) content ∷ ms)))
      (sym e)
      (λ m.
        step_last (assembly_of p.sequence p.bit_count w) (consumption_of p.sequence w) p t
          (some p.sequence) after (Fits-IsAssembled w p t f) (Fits-IsConsumed w p t f) content l m)
      made
parse_lines-pairs (w ∷ ws) p t after content (f, inr (l, more)) made =
    let joined = append_assoc p.words (w ∷ []) ws in
    let more' =
      subst (λ s. Consumed p.bit_count (length (p.words ++ (w ∷ []))) s w.consume_tick ws)
        (sym (width_of-append p.words w))
        (subst (λ i. Consumed p.bit_count i (width_of p.words + w.width) w.consume_tick ws)
          (sym (length-append p.words (w ∷ []))) more) in
    step_more (assembly_of p.sequence p.bit_count w) (consumption_of p.sequence w) p t
      (some p.sequence) (pairs p.sequence p.bit_count ws after) (Fits-IsAssembled w p t f)
      (Fits-IsConsumed w p t f) l
    ∙ parse_lines-pairs ws (add_word p w) w.consume_tick after content more'
        (subst (λ vs. reconstruct (record p { words = vs }) ≡ ok content) (sym joined) made)
    ∙ ap
        (λ vs.
          parse_lines after idle (some p.sequence) (some (last_tick w.consume_tick ws)) >>= λ ms.
          ok (input_message (record p { words = vs }) content ∷ ms))
        joined

parse_lines-written :
    (ms : List Ka10ImpInputMessage) (n t : Option ℕ)
    → Messages n t ms
    → parse_lines (written ms) idle n t ≡ ok ms
unfolding parse_lines
parse_lines-written [] n t h = refl
parse_lines-written (m ∷ ms) n t (a, b, c, d, words, made, follows) =
    let p = new_message m.receive_tick m.source_local_sequence m.bit_count in
    rw ((check_message_iff m.receive_tick m.source_local_sequence m.bit_count n t).1 (a, b, c, d)) (
      parse_lines-pairs m.words p m.receive_tick (written ms) m.content words made
      ∙ rw (
          parse_lines-written ms (some m.source_local_sequence)
            (some (last_tick m.receive_tick m.words)) follows))

-- A trace gives these messages exactly when its lines with the marker are the lines of the messages,
-- and the messages are well formed: of whole octets, numbered one by one, with ticks that never go
-- back, and with the content of their words; the words numbered from 0, from bit to bit without a
-- gap, 36 bits wide or 32 with zeros below, valid up to the end of the message, and with the last one,
-- and no other, reaching that end.
pub parse_ka10_imp_trace-accepts :
    (lines : List (Option Line)) (ms : List Ka10ImpInputMessage)
    → (parse_ka10_imp_trace lines ≡ ok ms) ↔ ((marked lines ≡ written ms) × Messages none none ms)
unfolding parse_ka10_imp_trace
parse_ka10_imp_trace-accepts lines ms = (
  parse_lines-Messages (marked lines) none none ms,
  λ (shown, h). ap (λ ls. parse_lines ls idle none none) shown ∙ parse_lines-written ms none none h,
)
