-- ===== src/ThreadObject/Lifetime.antt =====
-- Which threads a `thread` has joined when it is destroyed.
use linux_tcp_lib.Prelude.{
  ℕ, ◌≡◌, refl, sym, ap, ◌∙◌, Bool, true, false, none, some, List, [], ◌∷◌, ◌++◌, append-nil,
  append_assoc,
}
use linux_tcp_lib.Threads.{created_as}
use linux_tcp_lib.ThreadObject.{
  PthreadCall, pthread_join, pthread_detach, Thread, new_thread, create, join, detach,
  destroy_thread,
}

-- The calls of an owner.
pub data Use : Type 0 where
  creates : ℕ → Use
  joins : Use
  detaches : Use

unfoldable pub uses : Thread → List Use → Thread
uses t [] = t
uses t (creates id ∷ us) = uses (create t (created_as id)) us
uses t (joins ∷ us) = uses (join t) us
uses t (detaches ∷ us) = uses (detach t) us

-- No `detach`, and a `join` between two `create`s; the first argument says whether there is a thread.
unfoldable pub is_tidy : Bool → List Use → Bool
is_tidy held [] = true
is_tidy true (creates id ∷ us) = false
is_tidy false (creates id ∷ us) = is_tidy true us
is_tidy held (joins ∷ us) = is_tidy false us
is_tidy held (detaches ∷ us) = false

-- A join of each thread that was created, in order.
unfoldable pub joins_all : List Use → List PthreadCall
joins_all [] = []
joins_all (creates id ∷ us) = pthread_join id ∷ joins_all us
joins_all (joins ∷ us) = joins_all us
joins_all (detaches ∷ us) = joins_all us

mutual
  unfolding uses joins_all destroy_thread join create detach is_tidy

  destroy_thread-held :
      (us : List Use) (id : ℕ) (calls : List PthreadCall)
      → is_tidy true us ≡ true
      → (destroy_thread (uses (record { thread = some id; calls = calls }) us)).calls
        ≡ calls ++ pthread_join id ∷ joins_all us
  destroy_thread-held [] id calls h = refl
  destroy_thread-held (creates j ∷ us) id calls h = cc
  destroy_thread-held (joins ∷ us) id calls h =
      destroy_thread-free us (calls ++ pthread_join id ∷ []) h
      ∙ append_assoc calls (pthread_join id ∷ []) (joins_all us)
  destroy_thread-held (detaches ∷ us) id calls h = cc

  destroy_thread-free :
      (us : List Use) (calls : List PthreadCall)
      → is_tidy false us ≡ true
      → (destroy_thread (uses (record { thread = none; calls = calls }) us)).calls
        ≡ calls ++ joins_all us
  destroy_thread-free [] calls h = sym (append-nil calls)
  destroy_thread-free (creates id ∷ us) calls h = destroy_thread-held us id calls h
  destroy_thread-free (joins ∷ us) calls h = destroy_thread-free us calls h
  destroy_thread-free (detaches ∷ us) calls h = cc

-- A `thread` that is never detached, and joined before it is created again, has joined each of its
-- threads once, in the order in which they were created, when it is destroyed.
pub destroy_thread-uses :
    (us : List Use)
    → is_tidy false us ≡ true
    → (destroy_thread (uses new_thread us)).calls ≡ joins_all us
unfolding new_thread
destroy_thread-uses us h = destroy_thread-free us [] h

-- A `thread` that is detached keeps its handle: the destructor joins the thread although it was
-- detached.
pub detach-destroy_thread :
    (t : Thread) (id : ℕ)
    → t.thread ≡ some id
    → (destroy_thread (detach t)).calls
      ≡ (t.calls ++ pthread_detach (some id) ∷ []) ++ pthread_join id ∷ []
unfolding destroy_thread detach join
detach-destroy_thread t id e =
    ap
      (λ o.
        (destroy_thread (record t { calls = t.calls ++ pthread_detach o ∷ []; thread = o })).calls)
      e
