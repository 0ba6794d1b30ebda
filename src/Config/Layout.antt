-- ===== src/Config/Layout.antt =====
-- The file of a configuration, written out, and what `ConfigParser::parse` of
-- include/utils/miscutils.hpp makes of it.
use rdma_migration_system.Prelude.{
  ℕ, suc, ◌<◌, ◌≡◌, ◌≢◌, refl, ap, ◌∙◌, arith, some, none, Bool, true, List, [], ◌∷◌, ◌++◌,
}
use rdma_migration_system.Prelude.Tests.{if◌then◌else◌}
use rdma_migration_system.Prelude.Lists.{length}
use rdma_migration_system.Prelude.Word.{int_max}
use rdma_migration_system.Prelude.Results.{ok}
use rdma_migration_system.Prelude.Integers.{ℤ, pos}
use rdma_migration_system.Prelude.Maps.{Map}
use rdma_migration_system.Records.{c_str}
use rdma_migration_system.Records.Order.{Text, text_eq}
use rdma_migration_system.Records.Fields.{c_str-Plain}
use rdma_migration_system.Records.Digits.{int_to_string-Plain}
use rdma_migration_system.Records.Signed.{atol, int_to_string, atol-int_to_string}
use rdma_migration_system.Config.{
  Stream, ServerNode, ConfigParser, get_line, read_server, insert_server, read_servers,
  read_zookeeper, null_text, rounds, parse,
}
use rdma_migration_system.Config.Numbers.{IsInt, IsInt-IsLong, stoi, stoi-int_to_string}
use rdma_migration_system.Config.Lines.{
  Without, Without-append, get_line-word, get_line_last, append_full, int_to_string-Without,
  int_to_string_full,
}

-- The numbers are of type `int`, and the address has no space and no line end in it.
pub record IsWritable (node : ServerNode) : Type 0 where
  pub id_fits : IsInt node.id
  pub port_fits : IsInt node.port
  pub one_word : Without 32 node.ip
  pub one_line : Without 10 node.ip

abbrev pub AllWritable : List ServerNode → Type 0
AllWritable [] = Unit {0}
AllWritable (node ∷ nodes) = IsWritable node × AllWritable nodes

-- `id ip port`
abbrev pub server_line : ServerNode → Text
server_line node = int_to_string node.id ++ (32 ∷ (node.ip ++ (32 ∷ int_to_string node.port)))

abbrev pub server_lines : List ServerNode → Text → Text
server_lines [] after = after
server_lines (node ∷ nodes) after = server_line node ++ (10 ∷ server_lines nodes after)

-- `zookeeperserverlist,heartbeats_timeout,logFile`
abbrev pub zookeeper_line : Text → ℤ → Text → Text
zookeeper_line zookeepers heartbeat log_file =
    zookeepers ++ (44 ∷ (int_to_string heartbeat ++ (44 ∷ log_file)))

-- The number of servers, a line for each, and a last line.
abbrev pub config_text : List ServerNode → Text → Text
config_text nodes last = int_to_string (pos (length nodes)) ++ (10 ∷ server_lines nodes last)

-- Of servers with the same id the first one stays.
abbrev pub add_all : List ServerNode → Map ℤ ServerNode → Map ℤ ServerNode
add_all [] m = m
add_all (node ∷ nodes) m = add_all nodes (insert_server node m)

server_line-Without : (node : ServerNode) → IsWritable node → Without 10 (server_line node)
server_line-Without node w =
    Without-append 10 (int_to_string node.id) (32 ∷ (node.ip ++ (32 ∷ int_to_string node.port)))
      (int_to_string-Without 10 node.id (omega arith))
      (
        (λ e. absurd (omega (arith, e))),
        Without-append 10 node.ip (32 ∷ int_to_string node.port) w.one_line
            ((λ e. absurd (omega (arith, e))), int_to_string-Without 10 node.port (omega arith)),
      )

read_server_step :
    (line a b c : Text) (s t u : Stream) (x y z : Bool) (id port : ℤ)
    → get_line 32 (some line) [] ≡ (x, a, s)
    → get_line 32 s a ≡ (y, b, t)
    → get_line 32 t b ≡ (z, c, u)
    → stoi a ≡ ok id
    → stoi c ≡ ok port
    → read_server line ≡ ok (record { id = id; ip = b; port = port })
unfolding read_server
read_server_step line a b c s t u x y z id port e f g h k = rw (e, h, f, g, k, read_server) refl

read_server-line : (node : ServerNode) → IsWritable node → read_server (server_line node) ≡ ok node
read_server-line node w =
    let id = int_to_string node.id in
    let port = int_to_string node.port in
    read_server_step (server_line node) id node.ip port (some (node.ip ++ (32 ∷ port))) (some port)
      none true true true node.id node.port
      (get_line-word 32 id (node.ip ++ (32 ∷ port)) []
        (int_to_string-Without 32 node.id (omega arith)))
      (get_line-word 32 node.ip port id w.one_word)
      (get_line_last 32 port node.ip (int_to_string-Without 32 node.port (omega arith))
        (int_to_string_full node.port))
      (stoi-int_to_string node.id w.id_fits) (stoi-int_to_string node.port w.port_fits)

read_servers_step :
    (n : ℕ) (s t : Stream) (line : Text) (node : ServerNode) (m : Map ℤ ServerNode)
    → get_line 10 s [] ≡ (true, line, t)
    → read_server line ≡ ok node
    → read_servers (suc n) s m ≡ read_servers n t (insert_server node m)
unfolding read_servers
read_servers_step n s t line node m e f = rw (e, e, f, read_servers) refl

read_servers-lines :
    (nodes : List ServerNode) (after : Text) (m : Map ℤ ServerNode)
    → AllWritable nodes
    → read_servers (length nodes) (some (server_lines nodes after)) m
      ≡ ok (add_all nodes m, some after)
unfolding read_servers
read_servers-lines [] after m w = refl
read_servers-lines (node ∷ nodes) after m (w, ws) =
    read_servers_step (length nodes) (some (server_lines (node ∷ nodes) after))
      (some (server_lines nodes after)) (server_line node) node m
      (get_line-word 10 (server_line node) (server_lines nodes after) []
        (server_line-Without node w))
      (read_server-line node w)
    ∙ read_servers-lines nodes after (insert_server node m) ws

-- What the line of ZooKeeper sets.
abbrev pub with_zookeeper : Text → ℤ → Text → ConfigParser → ConfigParser
with_zookeeper zookeepers heartbeat log_file cfg = record cfg {
  zookeeper_servers = zookeepers;
  heartbeat = heartbeat;
  zk_errorfile = if text_eq log_file null_text then none else some log_file;
}

read_zookeeper_step :
    (line a b c : Text) (s t u : Stream) (x y z : Bool) (cfg : ConfigParser)
    → get_line 44 (some line) [] ≡ (x, a, s)
    → get_line 44 s a ≡ (y, b, t)
    → get_line 44 t b ≡ (z, c, u)
    → read_zookeeper line cfg ≡ with_zookeeper a (atol (c_str b)) c cfg
unfolding read_zookeeper
read_zookeeper_step line a b c s t u x y z cfg e f g = rw (e, f, g, read_zookeeper) refl

-- The three words are there and can be read back.
pub record IsZookeeper (zookeepers : Text) (heartbeat : ℤ) (log_file : Text) : Type 0 where
  pub one_server : Without 44 zookeepers
  pub server_in_line : Without 10 zookeepers
  pub heartbeat_fits : IsInt heartbeat
  pub one_file : Without 44 log_file
  pub file_in_line : Without 10 log_file
  pub file_named : log_file ≢ []

read_zookeeper-line :
    (cfg : ConfigParser) (zookeepers : Text) (heartbeat : ℤ) (log_file : Text)
    → IsZookeeper zookeepers heartbeat log_file
    → read_zookeeper (zookeeper_line zookeepers heartbeat log_file) cfg
      ≡ with_zookeeper zookeepers heartbeat log_file cfg
read_zookeeper-line cfg zookeepers heartbeat log_file w =
    let number = int_to_string heartbeat in
    read_zookeeper_step (zookeeper_line zookeepers heartbeat log_file) zookeepers number log_file
      (some (number ++ (44 ∷ log_file))) (some log_file) none true true true cfg
      (get_line-word 44 zookeepers (number ++ (44 ∷ log_file)) [] w.one_server)
      (get_line-word 44 number log_file zookeepers
        (int_to_string-Without 44 heartbeat (omega arith)))
      (get_line_last 44 log_file number w.one_file w.file_named)
    ∙ ap (λ h. with_zookeeper zookeepers h log_file cfg)
        (ap atol (c_str-Plain number (int_to_string-Plain heartbeat))
          ∙ atol-int_to_string heartbeat (IsInt-IsLong heartbeat w.heartbeat_fits))

parse_step :
    (s t u v : Stream) (line last : Text) (n : ℤ) (servers : Map ℤ ServerNode) (cfg : ConfigParser)
    → get_line 10 s [] ≡ (true, line, t)
    → stoi line ≡ ok n
    → read_servers (rounds n) t cfg.servers ≡ ok (servers, u)
    → get_line 10 u line ≡ (true, last, v)
    → parse true s cfg
      ≡ ok (read_zookeeper last (record cfg { num_servers = n; servers = servers }))
unfolding parse
parse_step s t u v line last n servers cfg e f g h = rw (e, f, g, h, parse) refl

zookeeper_line-Without :
    (zookeepers : Text) (heartbeat : ℤ) (log_file : Text)
    → IsZookeeper zookeepers heartbeat log_file
    → Without 10 (zookeeper_line zookeepers heartbeat log_file)
zookeeper_line-Without zookeepers heartbeat log_file w =
    let number = int_to_string heartbeat in
    Without-append 10 zookeepers (44 ∷ (number ++ (44 ∷ log_file))) w.server_in_line (
      (λ e. absurd (omega (arith, e))),
      Without-append 10 number (44 ∷ log_file) (int_to_string-Without 10 heartbeat (omega arith))
          ((λ e. absurd (omega (arith, e))), w.file_in_line),
    )

-- In the fault-tolerant build, `parse` of a file with the number of servers, a line `id ip port` for
-- each, and a line of ZooKeeper with one server, the timeout and the log file gives what is written
-- there: the servers by id, of those with the same id the first, unless the map had that id, and the
-- three parameters, with a null pointer for the log file `null`. Numbers are of type `int`, no word
-- has its delimiter or the end of its line in it, and the log file has a name.
pub parse-config_text :
    (nodes : List ServerNode) (zookeepers : Text) (heartbeat : ℤ) (log_file : Text)
    (cfg : ConfigParser)
    → AllWritable nodes
    → length nodes < int_max
    → IsZookeeper zookeepers heartbeat log_file
    → parse true (some (config_text nodes (zookeeper_line zookeepers heartbeat log_file))) cfg
      ≡ ok (
          with_zookeeper zookeepers heartbeat log_file
            (record cfg { num_servers = pos (length nodes); servers = add_all nodes cfg.servers }))
parse-config_text nodes zookeepers heartbeat log_file cfg writable few w =
    let last = zookeeper_line zookeepers heartbeat log_file in
    let n = pos (length nodes) in
    let count = int_to_string n in
    parse_step (some (config_text nodes last)) (some (server_lines nodes last)) (some last) none
      count last n (add_all nodes cfg.servers) cfg
      (get_line-word 10 count (server_lines nodes last) []
        (int_to_string-Without 10 n (omega arith)))
      (stoi-int_to_string n few) (read_servers-lines nodes last cfg.servers writable)
      (get_line_last 10 last count (zookeeper_line-Without zookeepers heartbeat log_file w)
        (append_full zookeepers 44 (int_to_string heartbeat ++ (44 ∷ log_file))))
    ∙ ap ok (
        read_zookeeper-line (record cfg { num_servers = n; servers = add_all nodes cfg.servers })
          zookeepers heartbeat log_file w)
