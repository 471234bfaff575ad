-- ===== src/DoSend/Tests.antt =====
-- `doSend` on concrete rings.
use linux_tcp_lib.Prelude.{◌≡◌, refl, some, [], ◌∷◌, arith}
use linux_tcp_lib.ClientCell.{SendCell, ClientCell}
use linux_tcp_lib.ClientCell.Ring.{IsRing}
use linux_tcp_lib.DoSend.{left, do_send}
use linux_tcp_lib.DoSend.Conserves.{unsent_all, Sends, do_send-Sends}
use linux_tcp_lib.DoSend.Drains.{do_send-drains}
use linux_tcp_lib.Fixtures.{takes_all, takes_one, sc, loaded, loaded-IsRing}

do_send-takes_one : Sends loaded (sc ∷ []) [] (do_send takes_one loaded)
do_send-takes_one = do_send-Sends takes_one loaded (sc ∷ []) loaded-IsRing

do_send-takes_all :
    (cell' : ClientCell) × (do_send takes_all loaded ≡ some (cell', unsent_all (sc ∷ [])))
    × IsRing cell' []
unfolding left
do_send-takes_all =
    do_send-drains takes_all loaded (sc ∷ []) (λ j count. refl) loaded-IsRing (omega arith, tt)
      (omega arith)

abbrev nothing : SendCell
nothing = record { ptr = []; size = 0; send_pos = 0 }
