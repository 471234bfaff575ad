-- ===== src/ThreadObject/Tests.antt =====
-- A thread that is joined and created again.
use linux_tcp_lib.Prelude.{◌≡◌, refl, List, [], ◌∷◌}
use linux_tcp_lib.ThreadObject.{new_thread, create, join, destroy_thread, sleep_usec}
use linux_tcp_lib.ThreadObject.Lifetime.{Use, creates, joins, uses, joins_all}

abbrev twice : List Use
twice = joins ∷ creates 7 ∷ joins ∷ creates 8 ∷ []

twice_joined : (destroy_thread (uses new_thread twice)).calls ≡ joins_all twice
unfolding uses new_thread create join destroy_thread joins_all
twice_joined = refl

-- 72 minutes are 25 seconds.
long_sleep : sleep_usec 4320000 ≡ 25032704
unfolding sleep_usec
long_sleep = refl
