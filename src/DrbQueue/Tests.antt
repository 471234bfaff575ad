-- ===== src/DrbQueue/Tests.antt =====
-- The queue on concrete pages.
use linux_tcp_lib.Prelude.{ℕ, ◌*◌, ◌<◌, ◌≡◌, none, some, [], ◌∷◌, ◌++◌, arith}
use linux_tcp_lib.DrbQueue.{DrbQueue, drb_queue, msg_page, push}
use linux_tcp_lib.DrbQueue.Slots.{msg_page-off_by_one}
use linux_tcp_lib.DrbQueue.Keeps.{Keeps, push-Keeps, drb_queue-Keeps}

abbrev new_queue : DrbQueue ℕ
new_queue = drb_queue 0 8 2

new_queue-Keeps : Keeps 0 new_queue []
new_queue-Keeps = drb_queue-Keeps 0 8 2 (omega arith)

push-new_queue : (q' : DrbQueue ℕ) × (push 0 new_queue 7 ≡ some q') × Keeps 0 q' ([] ++ 7 ∷ [])
push-new_queue = push-Keeps 0 new_queue [] 7 new_queue-Keeps

two_pages : 0 < new_queue.page_index_count
unfolding drb_queue
two_pages = omega arith

msg_page-fourth : msg_page 0 new_queue (new_queue.page_index_count * 2) ≡ none
msg_page-fourth = msg_page-off_by_one 0 new_queue two_pages
