-- ===== src/Processor/Tests.antt =====
-- Two messages.
use linux_tcp_lib.Prelude.{◌≡◌, refl, none, some, List, [], ◌∷◌}
use linux_tcp_lib.Processor.{AtpMessage, processor_base}
use linux_tcp_lib.Processor.Order.{Request, posting, getting, answers, expected, answers-expected}

abbrev first : AtpMessage
first = record { type = 1; param1 = 0; param2 = 0 }

abbrev second : AtpMessage
second = record { type = 2; param1 = 0; param2 = 0 }

abbrev requests : List Request
requests = getting ∷ posting first ∷ posting second ∷ getting ∷ []

answers-requests : answers requests processor_base ≡ expected requests []
answers-requests = answers-expected requests

expected-requests : expected requests [] ≡ (none, 4294967295) ∷ (some first, 0) ∷ []
unfolding expected
expected-requests = refl
