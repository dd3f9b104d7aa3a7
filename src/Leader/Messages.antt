-- ===== src/Leader/Messages.antt =====
-- A whole IMP-to-host message: what must stand in it for a report to be attributed to an IMP.
pub mod Trouble
pub mod Throughput
use arpanet_redux.Prelude.{
  ℕ, zero, suc, ◌+◌, ◌≤◌, ◌<◌, ◌≡◌, ◌≢◌, ◌↔◌, refl, sym, ap, ◌∙◌, Bool, true, false, not, List, [],
  ◌∷◌, ◌++◌, map, String, leb, ◌==◌, if◌then◌else◌, Result, ok, err, ◌>>=◌, ◌>>◌, require, length,
  take, drop, >>=-eq-ok, require-eq-ok, ok-injective, arith,
}
use arpanet_redux.Report.Checksum.{Value, nat, ReportError}
use arpanet_redux.Report.Checksum.Laws.{map-nat_injective}
use arpanet_redux.Report.Trouble.{TroubleReport, trouble_report, decode_trouble_report}
use arpanet_redux.Report.Trouble.Format.{IsTroubleReport, decode_trouble_report-accepts}
use arpanet_redux.Host.Ingress.{IngressMessage}
use arpanet_redux.Leader.{
  ImpToHostMessageError, invalid_body, leader_missing, OldStyleImpToHostLeader, ImpToHostMessage,
  ImpToHostTroubleReport, wrap_body, decode_old_style_imp_to_host_leader,
  decode_imp_to_host_message, require_reporting_imp, decode_trouble_report_imp_to_host_message,
}
use arpanet_redux.Leader.RoundTrip.{
  IsLeader, first_word, second_word, decode_old_style_imp_to_host_leader-accepts,
}

-- The leader of a report: sent by an IMP, of the regular type, with a source IMP.
pub record IsReporting (l : OldStyleImpToHostLeader) : Type 0 where
  pub sent_by_imp : l.from_imp ≡ true
  pub regular : l.message_type ≡ 0
  pub sourced : 0 < l.source_imp

IsReporting-of_require :
    (d : ImpToHostMessage) (u : Unit {0}) → require_reporting_imp d ≡ ok u → IsReporting d.leader
unfolding require_reporting_imp
IsReporting-of_require d u h = ground arith

IsReporting→require_reporting_imp :
    (d : ImpToHostMessage) → IsReporting d.leader → require_reporting_imp d ≡ ok tt
unfolding require_reporting_imp
IsReporting→require_reporting_imp d v = ground arith

-- A message split into its leader and its body.
pub record Splits (m : IngressMessage) (d : ImpToHostMessage) : Type 0 where
  pub leader_fits : IsLeader d.leader
  pub words : m.words ≡ first_word d.leader ∷ second_word d.leader ∷ d.body_words
  pub first : d.first_sequence ≡ m.first_sequence
  pub last : d.final_sequence ≡ m.final_sequence

-- A message of at least two words, up to the decoding of its leader.
decode-two :
    (m : IngressMessage) (a b : ℕ) (body : List ℕ)
    → m.words ≡ a ∷ b ∷ body
    → decode_imp_to_host_message m ≡ (
        decode_old_style_imp_to_host_leader (nat a ∷ nat b ∷ []) >>= λ l. ok (record {
          first_sequence = m.first_sequence;
          final_sequence = m.final_sequence;
          leader = l;
          body_words = body;
        }))
unfolding decode_imp_to_host_message
decode-two m a b body e =
    ap
      (λ (ws : List ℕ).
        (require (leb 2 (length ws)) leader_missing
          >> (decode_old_style_imp_to_host_leader (map nat (take 2 ws)) >>= λ l. ok (record {
            first_sequence = m.first_sequence;
            final_sequence = m.final_sequence;
            leader = l;
            body_words = drop 2 ws;
          }))))
      e
    ∙ ground arith

split_words :
    (m : IngressMessage) (ws : List ℕ) (d : ImpToHostMessage)
    → m.words ≡ ws
    → decode_imp_to_host_message m ≡ ok d
    → Splits m d
unfolding decode_imp_to_host_message
split_words m [] d e h = ground arith
split_words m (a ∷ []) d e h = ground arith
split_words m (a ∷ b ∷ body) d e h =
    let (l, q, r) =
      >>=-eq-ok (decode_old_style_imp_to_host_leader (nat a ∷ nat b ∷ [])) _
        (sym (decode-two m a b body e) ∙ h) in
    let (v, w) = (decode_old_style_imp_to_host_leader-accepts (nat a ∷ nat b ∷ []) l).0 q in
    let t = ok-injective r in
    rw (← t) (record {
      leader_fits = v;
      words =
          e
          ∙ ap (λ xs. xs ++ body)
              (map-nat_injective (a ∷ b ∷ []) (first_word l ∷ second_word l ∷ []) w);
      first = refl;
      last = refl;
    })

Splits→decode :
    (m : IngressMessage) (d : ImpToHostMessage) → Splits m d → decode_imp_to_host_message m ≡ ok d
Splits→decode m d s =
    decode-two m (first_word d.leader) (second_word d.leader) d.body_words s.words
    ∙ ap
        (λ r. r >>= λ l. ok (record {
          first_sequence = m.first_sequence;
          final_sequence = m.final_sequence;
          leader = l;
          body_words = d.body_words;
        }))
        ((decode_old_style_imp_to_host_leader-accepts _ d.leader).1 (s.leader_fits, refl))
    ∙ ground (arith, s.first, s.last)

pub decode→Splits :
    (m : IngressMessage) (d : ImpToHostMessage) → decode_imp_to_host_message m ≡ ok d → Splits m d
decode→Splits m d h = split_words m m.words d refl h

-- What precedes the decoding of a body was passed exactly with the leader of a report.
module _ {B : Type 0} (m : IngressMessage)
    (body : ImpToHostMessage → Result ImpToHostMessageError B) (r : B) where
  pub preamble-passes :
      (decode_imp_to_host_message m >>= λ d. require_reporting_imp d >> body d) ≡ ok r
      → (d : ImpToHostMessage) × Splits m d × IsReporting d.leader × (body d ≡ ok r)
  preamble-passes h =
      let (d, e, h') = >>=-eq-ok (decode_imp_to_host_message m) _ h in
      let (u, e', h'') = >>=-eq-ok (require_reporting_imp d) _ h' in
      (d, decode→Splits m d e, IsReporting-of_require d u e', h'')

  pub passes-preamble :
      (d : ImpToHostMessage)
      → Splits m d
      → IsReporting d.leader
      → body d ≡ ok r
      → (decode_imp_to_host_message m >>= λ d. require_reporting_imp d >> body d) ≡ ok r
  passes-preamble d s v h = rw (Splits→decode m d s, IsReporting→require_reporting_imp d v) h

pub wrap_body-eq-ok :
    {A : Type 0} (x : Result ReportError A) (a : A) → wrap_body x ≡ ok a → x ≡ ok a
wrap_body-eq-ok (ok b) a h = cc
wrap_body-eq-ok (err e) a h = cc
