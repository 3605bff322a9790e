-- ===== src/Mongodb/Connection.antt =====
-- `class MongoDBConnection`: opening, closing and readiness.
use mongodb_k8s_operator.Prelude.{String, Bool, true, false, Option, none, some}
use mongodb_k8s_operator.Core.Error.{Error, retry_error}
use mongodb_k8s_operator.Core.Call.{Connection, Command, ping, mongo, close}
use mongodb_k8s_operator.Core.World.{World, Exec, after_delay}
use mongodb_k8s_operator.Core.Exec.{⊤, pure, raise, lift, catch, finally, call, ◌>>=◌, ◌>>◌}
use mongodb_k8s_operator.Mongodb.Configuration.{MongodbConfiguration, uri}

abbrev pub not_in_time : Error → Exec Bool
not_in_time retry_error = pure false
not_in_time e = raise e

module _ (w : World) where
  -- `MongoDBConnection(config, uri, direct)`; the client connects on its first command.
  unfoldable pub connect : MongodbConfiguration → Option String → Bool → Exec Connection
  connect config none direct = do
    u ← lift (uri w config)
    pure (record { uri = u; direct = direct })
  connect config (some u) direct = pure (record { uri = u; direct = direct })

  -- `with MongoDBConnection(…) as mongo: body`
  unfoldable pub with_connection {ℓ} :
      {A : Type ℓ} → MongodbConfiguration → Option String → Bool → (Connection → Exec A) → Exec A
  unfolding connect
  with_connection config host direct body = do
    conn ← connect config host direct
    finally (body conn) (close conn)

  -- `client.admin.command(…)` whose answer is not read.
  abbrev pub command : Connection → Command → Exec ⊤
  command conn c = call (mongo conn c) w.run

  -- Pings for a minute, whatever the failure is.
  unfoldable pub is_ready : Connection → Exec Bool
  is_ready conn =
      catch (w.retry (after_delay 60) false (λ _. true) (command conn ping) >> pure true)
        not_in_time
