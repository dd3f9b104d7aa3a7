-- ===== src/Trace/Imp11a/Accepts.antt =====
-- The lines of well-formed messages give these messages, so `parse_imp11a_trace` accepts exactly them.
use arpanet_redux.Prelude.{
  ℕ, ◌+◌, ◌≤◌, ◌≡◌, ◌≢◌, ◌↔◌, refl, sym, ap, subst, ◌∙◌, fun_ext, Option, none, some, List, [], ◌∷◌,
  ◌++◌, append-nil, append_assoc, length, length-append, ok, ◌>>=◌,
}
use arpanet_redux.Trace.Imp11a.{
  Line, unmarked, malformed, message, dma, complete, Imp11aInputWord, Imp11aInputMessage,
  PendingMessage, stored_word, parse_lines, parse_imp11a_trace,
}
use arpanet_redux.Trace.Imp11a.Format.{
  marked, stores, written, Stored, last_tick, Messages, check_message_iff, check_complete_iff,
  stored_word-store,
}
use arpanet_redux.Trace.Imp11a.Sound.{finish_message, add_word, length-pos, parse_lines-Messages}

parse_lines-marked :
    (rs : List Line) (pending : Option PendingMessage) (n t : Option ℕ)
    → parse_lines (marked rs) pending n t ≡ parse_lines rs pending n t
unfolding parse_lines
parse_lines-marked [] pending n t = refl
parse_lines-marked (unmarked ∷ rs) none n t = parse_lines-marked rs none n t
parse_lines-marked (unmarked ∷ rs) (some p) n t = parse_lines-marked rs (some p) n t
parse_lines-marked (malformed ∷ rs) none n t = refl
parse_lines-marked (malformed ∷ rs) (some p) n t = refl
parse_lines-marked (message tick sequence ∷ rs) none n t = rw (
    parse_lines-marked rs (some (record { sequence = sequence; start_tick = tick; words = [] }))
      (some sequence) (some tick))
parse_lines-marked (message tick sequence ∷ rs) (some p) n t = refl
parse_lines-marked (dma d ∷ rs) none n t = refl
parse_lines-marked (dma d ∷ rs) (some p) n t =
    ap (λ f. stored_word d p t >>= f)
      (fun_ext λ w. parse_lines-marked rs (some (add_word p w)) n (some d.tick))
parse_lines-marked (complete tick sequence k ∷ rs) none n t = refl
parse_lines-marked (complete tick sequence k ∷ rs) (some p) n t =
    rw (parse_lines-marked rs none n (some tick))

parse_lines-stores :
    (ws : List Imp11aInputWord) (p : PendingMessage) (t tick : ℕ) (after : List Line)
    → Stored (length p.words) t ws
    → last_tick t ws ≤ tick
    → p.words ++ ws ≢ []
    → parse_lines
        (stores p.sequence ws (complete tick p.sequence (length (p.words ++ ws)) ∷ after))
        (some p)
        (some p.sequence)
        (some t)
      ≡ (parse_lines after none (some p.sequence) (some tick) >>= λ ms.
          ok (finish_message p ws tick ∷ ms))
unfolding parse_lines
parse_lines-stores [] p t tick after s l ne =
    let c =
      (check_complete_iff tick p.sequence (length (p.words ++ [])) p t).1
        (refl, ap length (append-nil p.words), length-pos _ ne, l) in
    rw (c, append-nil p.words)
parse_lines-stores (w ∷ ws) p t tick after (i, s, l, stored) later ne =
    let joined = append_assoc p.words (w ∷ []) ws in
    let count : length p.words + 1 ≡ length (p.words ++ (w ∷ [])) =
      sym (length-append p.words (w ∷ [])) in
    let ih =
      parse_lines-stores ws (add_word p w) w.store_tick tick after
        (subst (λ k. Stored k w.store_tick ws) count stored) later (λ e. ne (sym joined ∙ e)) in
    rw (stored_word-store w p t i s l) (
      subst
        (λ zs.
          parse_lines (stores p.sequence ws (complete tick p.sequence (length zs) ∷ after))
            (some (add_word p w)) (some p.sequence) (some w.store_tick)
          ≡ (parse_lines after none (some p.sequence) (some tick) >>= λ ms.
              ok (record (finish_message p [] tick) { words = zs } ∷ ms)))
        joined ih)

parse_lines-written :
    (ms : List Imp11aInputMessage) (n t : Option ℕ)
    → Messages n t ms
    → parse_lines (written ms) none n t ≡ ok ms
unfolding parse_lines
parse_lines-written [] n t h = refl
parse_lines-written (m ∷ ms) n t (a, b, c, ne, stored, later, follows) =
    let p : PendingMessage = record {
      sequence = m.source_local_sequence;
      start_tick = m.start_tick;
      words = [];
    } in
    rw ((check_message_iff m.start_tick m.source_local_sequence n t).1 (a, b, c)) (
      parse_lines-stores m.words p m.start_tick m.complete_tick (written ms) stored later ne
      ∙ rw (parse_lines-written ms (some m.source_local_sequence) (some m.complete_tick) follows))

-- A trace gives these messages exactly when its lines with the marker are the lines of the messages,
-- and the messages are well formed: numbered one by one above 0, none of them empty, their words
-- numbered from 0, at even 18-bit addresses, each in memory with its octets swapped, and all ticks
-- in an order that never goes back.
pub parse_imp11a_trace-accepts :
    (lines : List Line) (ms : List Imp11aInputMessage)
    → (parse_imp11a_trace lines ≡ ok ms) ↔ ((marked lines ≡ written ms) × Messages none none ms)
unfolding parse_imp11a_trace
parse_imp11a_trace-accepts lines ms = (
  parse_lines-Messages lines none none ms,
  λ (shown, h).
      sym (parse_lines-marked lines none none none)
      ∙ ap (λ ls. parse_lines ls none none none) shown
      ∙ parse_lines-written ms none none h,
)
