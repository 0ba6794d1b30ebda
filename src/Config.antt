-- ===== src/Config.antt =====
-- include/utils/miscutils.hpp: `ConfigParser`, which reads the file that names the servers. A stream
-- is the text that is left in it, or nothing after its end was met; a file that cannot be opened is
-- such a stream.
pub mod Numbers
pub mod Lines
pub mod Layout
mod Examples
use rdma_migration_system.Prelude.{
  ℕ, zero, suc, Option, some, none, Bool, true, false, List, [], ◌∷◌,
}
use rdma_migration_system.Prelude.Tests.{◌==◌, ltb, if◌then◌else◌}
use rdma_migration_system.Prelude.Integers.{ℤ, pos, negsuc, int_beq, int_beq_iff}
use rdma_migration_system.Prelude.Results.{
  Result, ok, err, runtime_error, out_of_range, or_fault, ◌>>=◌,
}
use rdma_migration_system.Prelude.Maps.{Key, Map, lookup, insert}
use rdma_migration_system.Records.{c_str}
use rdma_migration_system.Records.Order.{Text, text_eq}
use rdma_migration_system.Records.Signed.{atol}
use Numbers.{stoi}

abbrev int_lt : ℤ → ℤ → Bool
int_lt (pos a) (pos b) = ltb a b
int_lt (negsuc a) (negsuc b) = ltb b a
int_lt (negsuc a) (pos b) = true
int_lt (pos a) (negsuc b) = false

instance abbrev pub int_key : Key ℤ
int_key = record { beq = λ a b. int_beq a b; blt = λ a b. int_lt a b; beq_iff = int_beq_iff }

-- `RNode(id, ip, port)`
pub record ServerNode : Type 0 where
  pub id : ℤ
  pub ip : Text
  pub port : ℤ

-- `ConfigParser`. The name of the log file is kept in place of the open file, and `none` in place of
-- a null pointer.
pub record ConfigParser : Type 0 where
  pub num_servers : ℤ
  pub servers : Map ℤ ServerNode
  pub zookeeper_servers : Text
  pub heartbeat : ℤ
  pub zk_errorfile : Option Text

abbrev pub Stream : Type 0
Stream = Option Text

-- The text up to the delimiter, and what is behind it, if the delimiter is there.
unfoldable pub cut_line : ℕ → Text → Text × Stream
cut_line delim [] = ([], none)
cut_line delim (c ∷ cs) =
    let (line, rest) = cut_line delim cs in if c == delim then ([], some cs) else (c ∷ line, rest)

-- `std::getline(stream, old, delim)`: whether it read, the string and the stream.
unfoldable pub get_line : ℕ → Stream → Text → Bool × Text × Stream
unfolding cut_line
get_line delim none old = (false, old, none)
get_line delim (some []) old = (false, [], none)
get_line delim (some (c ∷ cs)) old =
    let (line, rest) = cut_line delim (c ∷ cs) in (true, line, rest)

-- A line with a server. A token that is missing is only logged.
unfoldable pub read_server : Text → Result ServerNode
unfolding get_line
read_server line =
    let (_, token, stm) = get_line 32 (some line) [] in
    do
      id ← stoi token
      let (_, ip, stm') = get_line 32 stm token
      let (_, token', _) = get_line 32 stm' ip
      port ← stoi token'
      ok (record { id = id; ip = ip; port = port })

-- `map.insert`: an entry that is there stays.
abbrev pub insert_server : ServerNode → Map ℤ ServerNode → Map ℤ ServerNode
insert_server node m = elim (lookup node.id m) [ none ↦ insert node.id node m | some _ ↦ m ]

-- The loop over the lines of the servers. A line that is missing is only logged.
unfoldable pub read_servers : ℕ → Stream → Map ℤ ServerNode → Result (Map ℤ ServerNode × Stream)
unfolding read_server get_line
read_servers zero is_stream map = ok (map, is_stream)
read_servers (suc n) is_stream map =
    let (got, line, is_stream') = get_line 10 is_stream [] in
    elim got [
      | false ↦ read_servers n is_stream' map
      | true ↦ do node ← read_server line; read_servers n is_stream' (insert_server node map)
    ]

-- "null"
abbrev pub null_text : Text
null_text = 110 ∷ 117 ∷ 108 ∷ 108 ∷ []

-- The line with the parameters of ZooKeeper. `atoi` of a number that no `int` holds is undefined.
unfoldable pub read_zookeeper : Text → ConfigParser → ConfigParser
unfolding get_line
read_zookeeper line cfg =
    let (_, token, stm) = get_line 44 (some line) [] in
    let (_, token', stm') = get_line 44 stm token in
    let (_, token'', _) = get_line 44 stm' token' in
    record cfg {
      zookeeper_servers = token;
      heartbeat = atol (c_str token');
      zk_errorfile = if text_eq token'' null_text then none else some token'';
    }

-- How many rounds a loop `for (int i=0; i<n; i++)` has.
abbrev pub rounds : ℤ → ℕ
rounds (pos n) = n
rounds (negsuc n) = 0

-- Every `std::exception` becomes a `std::runtime_error`.
abbrev pub caught {ℓ} : {A : Type ℓ} → Result A → Result A
caught (ok a) = ok a
caught (err e) = err runtime_error

-- `parse`, built with FAULT_TOLERANT or without.
unfoldable pub parse : Bool → Stream → ConfigParser → Result ConfigParser
unfolding get_line read_servers read_zookeeper
parse fault_tolerant is_stream cfg =
    let (got, line, is_stream') = get_line 10 is_stream [] in
    caught (do
      num_servers ← (if got then stoi line else ok (pos 0))
      (servers, is_stream'') ← read_servers (rounds num_servers) is_stream' cfg.servers
      let cfg' = record cfg { num_servers = num_servers; servers = servers }
      let (more, line', _) = get_line 10 is_stream'' line
      if fault_tolerant
          then (if more then ok (read_zookeeper line' cfg') else ok cfg')
          else ok cfg')

-- `getNode`
unfoldable pub get_node : ConfigParser → ℤ → Result ServerNode
get_node cfg id = or_fault (lookup id cfg.servers) out_of_range
