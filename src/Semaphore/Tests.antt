-- ===== src/Semaphore/Tests.antt =====
-- A semaphore that is just its value, and the laws of Semaphore.Laws at concrete replies.
use posix_intro.Common.{◌+◌, ◌<◌, ◌≡◌, refl, some, List, [], ◌∷◌, arith}
use posix_intro.Semaphore.{Reply, acquired, failed, after, is_retried, rk_sema_wait}
use posix_intro.Semaphore.Laws.{rk_sema_wait-takes_one, rk_sema_wait-interrupted}
use posix_intro.Semaphore.Counting.{counting}

abbrev interrupted_twice : List Reply
interrupted_twice = failed 4 ∷ failed 4 ∷ acquired ∷ []

rk_sema_wait-takes_one_example : (0 < 3) × (2 + 1 ≡ 3)
unfolding rk_sema_wait
rk_sema_wait-takes_one_example =
    rk_sema_wait-takes_one counting 3 2 interrupted_twice (omega arith) refl

rk_sema_wait-interrupted_test :
    rk_sema_wait counting interrupted_twice 3 ≡ some (after counting acquired 3)
unfolding is_retried
rk_sema_wait-interrupted_test = rk_sema_wait-interrupted counting 2 acquired [] 3 refl
