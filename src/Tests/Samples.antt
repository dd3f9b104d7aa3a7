-- ===== src/Tests/Samples.antt =====
-- Inputs that the tests share: a trouble report with host 0 up and line 1 up towards IMP 5, a
-- throughput report, and the leader of IMP 6.
use arpanet_redux.Prelude.{ℕ, true, false, List, [], ◌∷◌, ◌++◌}
use arpanet_redux.Host.Ingress.{IngressMessage}
use arpanet_redux.Leader.{OldStyleImpToHostLeader}

abbrev zeros_12 : List ℕ
zeros_12 = 0 ∷ 0 ∷ 0 ∷ 0 ∷ 0 ∷ 0 ∷ 0 ∷ 0 ∷ 0 ∷ 0 ∷ 0 ∷ 0 ∷ []

abbrev pub trouble_words : List ℕ
trouble_words = 0o301 ∷ 32768 ∷ 0 ∷ 0 ∷ (zeros_12 ++ (7 ∷ 1280 ∷ (zeros_12 ++ (31288 ∷ []))))

abbrev pub throughput_words : List ℕ
throughput_words =
    0o302 ∷ 3 ∷ 4 ∷ (zeros_12 ++ (zeros_12 ++ (zeros_12 ++ (zeros_12 ++ (65335 ∷ [])))))

-- A leader that an IMP sent, with a source IMP.
abbrev pub leader_six : OldStyleImpToHostLeader
leader_six = record {
  priority = false;
  from_imp = true;
  trace = false;
  octal = false;
  message_type = 0;
  source_host_field = 0;
  source_imp = 6;
  message_id = 1;
  subtype = 0;
}

abbrev pub trouble_message : IngressMessage
trouble_message = record {
  first_sequence = 4;
  final_sequence = 5;
  words = 0x4006 ∷ 0x0010 ∷ trouble_words;
}

abbrev pub throughput_message : IngressMessage
throughput_message = record {
  first_sequence = 6;
  final_sequence = 6;
  words = 0x4006 ∷ 0x0010 ∷ throughput_words;
}
