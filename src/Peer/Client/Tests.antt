-- ===== src/Peer/Client/Tests.antt =====
-- A transport that is lost, replaced and given up.
use telekit.Common.{List, [], ◌∷◌, some}
use telekit.Peer.Client.{new_client, Step, agent, transport, finish, leave, reopen, run}
use telekit.Peer.Client.Owned.{IsOwned, run-IsOwned}

abbrev course : List Step
course =
    agent 40
    ∷ transport 40 50 (some 60)
    ∷ agent 41
    ∷ finish 50 60
    ∷ agent 42
    ∷ transport 42 52 (some 62)
    ∷ finish 50 60
    ∷ transport 42 53 (some 63)
    ∷ leave
    ∷ agent 43
    ∷ reopen
    ∷ agent 44
    ∷ []

run-IsOwned_example : IsOwned (run (new_client 100) course)
run-IsOwned_example = run-IsOwned 100 course
