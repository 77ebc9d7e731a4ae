-- ===== src/Kv/Server/Launch/Tests.antt =====
-- A server is started with no loop asked for, so with one, and two connections arrive.
use reactor_learn.Prelude.{◌≡◌, refl, true, false, some, [], ◌∷◌, ◌++◌, List}
use reactor_learn.Kv.ByteOrder.{little}
use reactor_learn.Net.Address.{InetText, InetAddress, new_address}
use reactor_learn.Net.Channel.{Epoll}
use reactor_learn.Net.Acceptor.{Answer, connects, fails, eagain, eintr, accept_loop}
use reactor_learn.Net.Acceptor.Burst.{Goes, arrivals}
use reactor_learn.Net.Server.{new_connection}
use reactor_learn.Kv.Server.Launch.{construct_server, in_turn, construct_server-deals}

abbrev text : InetText
text = record { pton = λ family ip. some 77; ntop = λ n. some (n ∷ []) }

abbrev peer : InetAddress
peer = record new_address { sin_addr = 77; sin_port = 513 }

abbrev epoll : Epoll
epoll = record { owner = 1; interest = [] }

abbrev answers : List Answer
answers = connects 7 peer ∷ fails eintr ∷ connects 8 peer ∷ []

answers-Goes : Goes answers
unfolding Goes
answers-Goes = (refl, tt)

construct_server-deals_example :
    (let (s, e') = construct_server true 5 true 0 (λ n. n) false 0 epoll in
      let (ended, t) =
        accept_loop (new_connection text little) (answers ++ (fails eagain ∷ [])) s in
      (ended ≡ true)
      × (t.submitted ≡ in_turn text little (λ n. n) 1 0 (arrivals answers))
      × (t.closed_fds ≡ []))
construct_server-deals_example =
    construct_server-deals text little true 5 true 0 (λ n. n) false 0 epoll answers [] answers-Goes
