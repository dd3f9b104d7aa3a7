-- ===== src/Leader/Messages/Trouble.antt =====
-- Messages that carry a trouble report.
use arpanet_redux.Prelude.{
  ◌≡◌, ◌↔◌, refl, sym, ap, ◌∙◌, map, Result, ok, ◌>>=◌, >>=-eq-ok, ok-injective,
}
use arpanet_redux.Report.Checksum.{nat}
use arpanet_redux.Report.Checksum.Laws.{map-nat_injective}
use arpanet_redux.Report.Trouble.{trouble_report, decode_trouble_report}
use arpanet_redux.Report.Trouble.Format.{IsTroubleReport, decode_trouble_report-accepts}
use arpanet_redux.Host.Ingress.{IngressMessage}
use arpanet_redux.Leader.{
  ImpToHostMessageError, ImpToHostMessage, ImpToHostTroubleReport, wrap_body,
  decode_trouble_report_imp_to_host_message,
}
use arpanet_redux.Leader.Messages.{
  IsReporting, Splits, preamble-passes, passes-preamble, wrap_body-eq-ok,
}

abbrev body_report : ImpToHostMessage → Result ImpToHostMessageError ImpToHostTroubleReport
body_report d = wrap_body (decode_trouble_report (map nat d.body_words)) >>= λ report.
    ok (record { message = d; report = report })

-- A message that gives a report: it splits into the leader of a reporting IMP and the words of a
-- report, which is the report returned.
pub record CarriesTrouble (m : IngressMessage) (r : ImpToHostTroubleReport) : Type 0 where
  pub splits : Splits m r.message
  pub reporting : IsReporting r.message.leader
  pub body : IsTroubleReport r.message.body_words
  pub report : r.report ≡ trouble_report r.message.body_words

body_report-eq-ok :
    (d : ImpToHostMessage) (r : ImpToHostTroubleReport)
    → body_report d ≡ ok r
    → (d ≡ r.message) × IsTroubleReport d.body_words × (r.report ≡ trouble_report d.body_words)
body_report-eq-ok d r h =
    let (x, e, h') = >>=-eq-ok (wrap_body (decode_trouble_report (map nat d.body_words))) _ h in
    let (ws, p, v, q) =
      (decode_trouble_report-accepts (map nat d.body_words) x).0 (wrap_body-eq-ok _ x e) in
    let t = ok-injective h' in
    let w : ws ≡ d.body_words = sym (map-nat_injective d.body_words ws p) in
    (
      ap (λ (y : ImpToHostTroubleReport). y.message) t,
      rw w at v,
      sym (ap (λ (y : ImpToHostTroubleReport). y.report) t) ∙ q ∙ ap trouble_report w,
    )

decode→Carries :
    (m : IngressMessage) (r : ImpToHostTroubleReport)
    → decode_trouble_report_imp_to_host_message m ≡ ok r
    → CarriesTrouble m r
unfolding decode_trouble_report_imp_to_host_message
decode→Carries m r h =
    let (d, s, v, b) = preamble-passes m body_report r h in
    let (e, w, q) = body_report-eq-ok d r b in
    record { splits = rw e at s; reporting = rw e at v; body = rw e at w; report = rw e at q }

Carries→decode :
    (m : IngressMessage) (r : ImpToHostTroubleReport)
    → CarriesTrouble m r
    → decode_trouble_report_imp_to_host_message m ≡ ok r
unfolding decode_trouble_report_imp_to_host_message
Carries→decode m r c = passes-preamble m body_report r r.message c.splits c.reporting (
    rw (
      (decode_trouble_report-accepts (map nat r.message.body_words) r.report).1
        (r.message.body_words, refl, c.body, c.report)))

-- A message is decoded to a trouble report exactly when it carries that report: a leader that an
-- IMP sent, of the regular type and with a source IMP, then the words of a valid report.
pub decode_trouble_report_imp_to_host_message-accepts :
    (m : IngressMessage) (r : ImpToHostTroubleReport)
    → (decode_trouble_report_imp_to_host_message m ≡ ok r) ↔ CarriesTrouble m r
decode_trouble_report_imp_to_host_message-accepts m r = (decode→Carries m r, Carries→decode m r)
