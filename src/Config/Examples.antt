-- ===== src/Config/Examples.antt =====
-- A file with two servers and the line of ZooKeeper, read by `ConfigParser` of
-- include/utils/miscutils.hpp.
use rdma_migration_system.Prelude.{◌≡◌, refl, arith, some, none, true, List, [], ◌∷◌}
use rdma_migration_system.Prelude.Integers.{pos, negsuc}
use rdma_migration_system.Prelude.Results.{ok, err, runtime_error, out_of_range}
use rdma_migration_system.Records.Order.{Text}
use rdma_migration_system.Config.{ServerNode, ConfigParser, read_server, parse, get_node, null_text}
use rdma_migration_system.Config.Numbers.{stoi}
use rdma_migration_system.Config.Layout.{
  IsWritable, config_text, zookeeper_line, with_zookeeper, add_all, IsZookeeper, parse-config_text,
}

abbrev empty_config : ConfigParser
empty_config = record {
  num_servers = pos 0;
  servers = [];
  zookeeper_servers = [];
  heartbeat = pos 0;
  zk_errorfile = none;
}

abbrev first_server : ServerNode
first_server = record { id = pos 1; ip = 104 ∷ 49 ∷ []; port = pos 5000 }

abbrev second_server : ServerNode
second_server = record { id = negsuc 1; ip = 104 ∷ 50 ∷ []; port = pos 5001 }

abbrev two_servers : List ServerNode
two_servers = first_server ∷ second_server ∷ []

-- "z:1"
abbrev one_zookeeper : Text
one_zookeeper = 122 ∷ 58 ∷ 49 ∷ []

first_server-IsWritable : IsWritable first_server
first_server-IsWritable = record {
  id_fits = omega arith;
  port_fits = omega arith;
  one_word = ((λ e. absurd (omega (arith, e))), ((λ e. absurd (omega (arith, e))), tt));
  one_line = ((λ e. absurd (omega (arith, e))), ((λ e. absurd (omega (arith, e))), tt));
}

second_server-IsWritable : IsWritable second_server
second_server-IsWritable = record {
  id_fits = omega arith;
  port_fits = omega arith;
  one_word = ((λ e. absurd (omega (arith, e))), ((λ e. absurd (omega (arith, e))), tt));
  one_line = ((λ e. absurd (omega (arith, e))), ((λ e. absurd (omega (arith, e))), tt));
}

one_zookeeper-IsZookeeper : IsZookeeper one_zookeeper (pos 3000) null_text
one_zookeeper-IsZookeeper = record {
  one_server = (
    (λ e. absurd (omega (arith, e))),
    ((λ e. absurd (omega (arith, e))), ((λ e. absurd (omega (arith, e))), tt)),
  );
  server_in_line = (
    (λ e. absurd (omega (arith, e))),
    ((λ e. absurd (omega (arith, e))), ((λ e. absurd (omega (arith, e))), tt)),
  );
  heartbeat_fits = omega arith;
  one_file = (
    (λ e. absurd (omega (arith, e))),
    (
      (λ e. absurd (omega (arith, e))),
      ((λ e. absurd (omega (arith, e))), ((λ e. absurd (omega (arith, e))), tt)),
    ),
  );
  file_in_line = (
    (λ e. absurd (omega (arith, e))),
    (
      (λ e. absurd (omega (arith, e))),
      ((λ e. absurd (omega (arith, e))), ((λ e. absurd (omega (arith, e))), tt)),
    ),
  );
  file_named = λ e. absurd (cc);
}

parse-config_text_example :
    parse true
      (some (config_text two_servers (zookeeper_line one_zookeeper (pos 3000) null_text)))
      empty_config
    ≡ ok (
        with_zookeeper one_zookeeper
          (pos 3000)
          null_text
          (record empty_config { num_servers = pos 2; servers = add_all two_servers [] }))
parse-config_text_example =
    parse-config_text two_servers one_zookeeper (pos 3000) null_text empty_config
      (first_server-IsWritable, (second_server-IsWritable, tt)) (omega arith)
      one_zookeeper-IsZookeeper

-- A file that cannot be opened leaves no server.
no_file : parse true none empty_config ≡ ok empty_config
unfolding parse
no_file = refl

-- A file whose first line is no number is an error, whatever the exception was.
no_number : parse true (some (120 ∷ 10 ∷ [])) empty_config ≡ err runtime_error
unfolding parse stoi
no_number = refl

-- A line without a port reads the address in its place.
no_port : read_server (49 ∷ 32 ∷ 55 ∷ []) ≡ ok (record { id = pos 1; ip = 55 ∷ []; port = pos 7 })
unfolding read_server stoi
no_port = refl

missing_node : get_node empty_config (pos 3) ≡ err out_of_range
unfolding get_node
missing_node = refl
