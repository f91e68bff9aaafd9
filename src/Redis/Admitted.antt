-- ===== src/Redis/Admitted.antt =====
-- A call of middleware/storage/redis/store.go that the breaker admits and the server answers.
use open_source.Common.{◌≡◌, refl, true, some, arith}
use open_source.Common.Float.{Float64}
use open_source.Breaker.{allow}
use open_source.Redis.Commands.{Command, Server}
use open_source.Redis.Store.{Record, Clock, Backend, guarded, recorded}

module _ (fl : Float64) (srv : Server fl) where
  pub guarded_admitted :
      {A : Type 0} (clock : Clock) (refused : A) (call : srv.State → srv.State × (Record × A))
      (b : Backend fl srv)
      → (allow clock.admitted b.circuit_breaker).1 ≡ true
      → ((guarded fl srv clock refused call b).1 ≡ (call b.server).1.1)
        × ((guarded fl srv clock refused call b).0.server ≡ (call b.server).0)
        × ((guarded fl srv clock refused call b).0.key_prefix ≡ b.key_prefix)
  unfolding guarded
  guarded_admitted clock refused call b admitted =
      (ground (arith, admitted), ground (arith, admitted), ground (arith, admitted))

  pub recorded_ok :
      {A B : Type 0} (m : Command srv.State A) (failed : B) (answer : A → B) (s : srv.State) {a : A}
      → (m s).1 ≡ some a
      → ((recorded fl srv m failed answer s).1.1 ≡ answer a)
        × ((recorded fl srv m failed answer s).0 ≡ (m s).0)
  unfolding recorded
  recorded_ok m failed answer s e = (rw (e, recorded) refl, rw (e, recorded) refl)
