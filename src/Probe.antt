-- ===== src/Probe.antt =====
-- ProbeDial of internal/oracle/probe.go.

pub mod Steady
use redis_sentinel_reconcile.Prelude.{
  ℕ, ◌*◌, Bool, true, false, List, [], ◌∷◌, Option, none, some, if◌then◌else◌,
}
use redis_sentinel_reconcile.Prelude.Int.{ℤ, pos}
use redis_sentinel_reconcile.Text.{
  Text, codes, text_eq, has_prefix, trim_prefix, trim_space, split_byte, contains, to_upper,
}
use redis_sentinel_reconcile.Text.Decimal.{atoi_value}
use redis_sentinel_reconcile.Oracle.{NodeResult, Err}
use redis_sentinel_reconcile.Redisconn.{Dial, Options, client, seconds, timeout_or}
use redis_sentinel_reconcile.Commands.{
  role, info, set_probe, Reply, ok, err, Scalar, str, int, other, sprint,
}
use redis_sentinel_reconcile.World.{Env, redis_call, M, pure, ◌>>=◌, send, ask}

abbrev pub probe_key : Text
probe_key = codes "rsr:probe"

-- The run_id of the first line that has one.
run_id_of_lines : List Text → Text
run_id_of_lines [] = []
run_id_of_lines (raw ∷ lines) =
    let line = trim_space raw in
    if has_prefix line (codes "run_id:")
    then trim_prefix line (codes "run_id:")
    else run_id_of_lines lines

unfoldable pub run_id_of : Reply Text → Text
unfolding run_id_of_lines
run_id_of (err e) = []
run_id_of (ok text) = run_id_of_lines (split_byte b'\n' text)

-- The switch on the type of roleVal[2].
master_port_of : Scalar → ℤ
master_port_of (int p) = p
master_port_of (str p) = atoi_value p
master_port_of (other p) = atoi_value p

-- The upstream master of a replica, where the reply has three elements.
with_upstream : List Scalar → NodeResult → NodeResult
unfolding master_port_of
with_upstream (host ∷ port ∷ more) n = record n {
  master_host = sprint host;
  master_port = master_port_of port;
}
with_upstream _ n = n

abbrev pub unprobed : Text → NodeResult
unprobed addr = record {
  addr = addr;
  role = [];
  writable = false;
  master_host = [];
  master_port = pos 0;
  run_id = [];
  err = none;
}

-- Both kinds of refusal mean that the node is not writable.
accepted : Option Err → Bool
accepted none = true
accepted (some e) = if contains (to_upper e) (codes "READONLY") then false else false

-- The timeout is defaulted here and once more by the client.
unfoldable pub probe_options : Dial → Text → Dial
probe_options d addr = record d { timeout = timeout_or (seconds 3) d.timeout; addr = addr }

module _ {W : Type 0} (env : Env W) where
  unfoldable pub try_set : Text → Options → M W Bool
  unfolding accepted
  try_set addr options = do
    at ← ask env.unix
    e ←
        send (redis_call addr (set_probe probe_key at (seconds 5)))
          (env.redis_set options probe_key at (seconds 5))
    pure (accepted e)

  -- What follows a ROLE reply with at least one element.
  unfoldable pub probe_role : Text → Options → Scalar → List Scalar → M W NodeResult
  unfolding try_set with_upstream
  probe_role addr options kind more = do
    text ← send (redis_call addr (info (codes "server"))) (env.redis_info options (codes "server"))
    let n = record (unprobed addr) { role = sprint kind; run_id = run_id_of text }
    if text_eq (sprint kind) (codes "master")
        then (do w ← try_set addr options; pure (record n { writable = w }))
        else if text_eq (sprint kind) (codes "slave")
        then (do w ← try_set addr options; pure (record (with_upstream more n) { writable = w }))
        else pure n

  unfoldable pub after_role : Text → Options → Reply (List Scalar) → M W NodeResult
  unfolding probe_role
  after_role addr options (err e) = pure (record (unprobed addr) { err = some e })
  after_role addr options (ok []) =
      pure (record (unprobed addr) { err = some (codes "empty ROLE response") })
  after_role addr options (ok (kind ∷ more)) = probe_role addr options kind more

  unfoldable pub probe_dial : Text → Dial → M W NodeResult
  unfolding after_role
  probe_dial addr d = do
    let options = client env.resolver (probe_options d addr)
    reply ← send (redis_call addr role) (env.redis_role options)
    after_role addr options reply
