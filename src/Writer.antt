-- ===== src/Writer.antt =====
-- cmd/writer/main.go: a lab program that writes the time to the master that Sentinel advertises. Its
-- multiFlag is that of Flags.antt.
pub mod Laws
use redis_sentinel_reconcile.Prelude.{
  ℕ, zero, suc, ◌+◌, ◌/◌, ◌%◌, Bool, true, false, List, [], ◌∷◌, ◌++◌, Option, none, some,
  if◌then◌else◌,
}
use redis_sentinel_reconcile.Prelude.Int.{ℤ, pos, negsuc}
use redis_sentinel_reconcile.Text.{Text, codes}
use redis_sentinel_reconcile.Oracle.{Err}
use redis_sentinel_reconcile.Redisconn.{Dial, Options, seconds}
use redis_sentinel_reconcile.Commands.{Reply, ok, err}
use redis_sentinel_reconcile.Sentinel.{Client, new_client, get_master}
use redis_sentinel_reconcile.World.{Env, M, pure, ◌>>=◌, ◌>>◌, ask}

-- The loop of itoa for a buffer of 16 bytes, with room for `room` more: `none` is the panic of an
-- index below 0.
unfoldable pub fill : ℕ → ℕ → Text → Option Text
fill room zero b = some b
fill zero (suc n) b = none
fill (suc room) (suc n) b = fill room (suc n / 10) ((b'0' + suc n % 10) ∷ b)

-- itoa; a number below 0 leaves the buffer as it is.
unfoldable pub itoa : ℤ → Option Text
unfolding fill
itoa (pos zero) = some (codes "0")
itoa (pos (suc n)) = fill 16 (suc n) []
itoa (negsuc n) = some []

unfoldable pub format_addr : Text → ℤ → Option Text
unfolding itoa
format_addr host port = elim (itoa port) [ none ↦ none | some p ↦ some (host ++ b':' ∷ p) ]

-- What flag.Parse leaves of the flags that main uses; the interval only sets the ticker.
pub record WriterFlags : Type 0 where
  pub master_name : Text
  pub redis_password : Text
  pub sentinel_password : Text

-- How a round of writeOnce ends.
pub data Round : Type 0 where
  get_master_failed : Err → Round
  set_failed : Text → Err → Round
  set_ok : Text → Text → Round
  panicked : Round

-- How main ends: without an address, or after its rounds, a panic being the last one.
pub data WriterEnding : Type 0 where
  exit_2 : WriterEnding
  rounds : List Round → WriterEnding

-- The redis.Options of a master
unfoldable pub master_options : Text → Text → Options
master_options password addr = record {
  addr = addr;
  username = [];
  password = password;
  tls_config = none;
  dial_timeout = seconds 3;
  read_timeout = seconds 3;
  write_timeout = seconds 3;
}

-- The Dial of sentinel.NewClient.
unfoldable pub password_dial : Text → Text → Dial
password_dial addr password = record {
  addr = addr;
  username = [];
  password = password;
  tls = none;
  tls_server_name = [];
  timeout = pos 0;
}

abbrev set_round : Text → Text → Option Err → Round
set_round addr now none = set_ok addr now
set_round addr now (some e) = set_failed addr e

abbrev is_panic : Round → Bool
is_panic panicked = true
is_panic _ = false

-- The time in the form RFC3339Nano, and SET key value ttl of go-redis, beside the other operations.
module _ {W : Type 0} (env : Env W) (format_now : W → Text × W)
    (rdb_set : Options → Text → Text → ℤ → W → Option Err × W) (f : WriterFlags) where
  unfoldable pub set_time : Text → M W Round
  unfolding master_options
  set_time addr = do
    now ← ask format_now
    e ←
        ask
          (rdb_set (master_options f.redis_password addr) (codes "lab:writer:ts") now (seconds 30))
    pure (set_round addr now e)

  unfoldable pub on_master : Reply (Text × ℤ) → M W Round
  unfolding set_time format_addr
  on_master (err e) = pure (get_master_failed e)
  on_master (ok (host, port)) = elim (format_addr host port) [
    | none ↦ pure panicked
    | some addr ↦ set_time addr
  ]

  unfoldable pub write_once : Client → M W Round
  unfolding on_master
  write_once sent = do reply ← get_master env sent f.master_name; on_master reply

  -- A first round and one for each tick until the context is done; a panic ends them.
  unfoldable pub write_rounds : Client → ℕ → M W (List Round)
  unfolding write_once
  write_rounds sent zero = do r ← write_once sent; pure (r ∷ [])
  write_rounds sent (suc ticks) = do
    r ← write_once sent
    if is_panic r then pure (r ∷ []) else (do rs ← write_rounds sent ticks; pure (r ∷ rs))

  -- main, given the number of ticks; NewClient is a Dial with an address and a password.
  unfoldable pub main : List Text → ℕ → M W WriterEnding
  unfolding write_rounds
  main [] ticks = pure exit_2
  main (addr ∷ addrs) ticks = do
    rs ← write_rounds (new_client env.resolver (password_dial addr f.sentinel_password)) ticks
    pure (rounds rs)
