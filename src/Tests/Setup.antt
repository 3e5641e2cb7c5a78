-- ===== src/Tests/Setup.antt =====
-- The configuration of one device, the slave and the worker made of it, and its addresses.
use baetyl_bacnet.Common.{ℕ, ◌≡◌, refl, [], ◌∷◌, none, some, arith}
use baetyl_bacnet.Common.Go.{ok, returns}
use baetyl_bacnet.Common.Text.{same_text, format_uint, digits}
use baetyl_bacnet.Common.Dict.{lookup, put}
use baetyl_bacnet.Bacip.Client.Interface.{
  to4, broadcast_addr, contains, network_of, new_client_by_ip,
}
use baetyl_bacnet.Bacip.Client.Broadcast.{network, broadcast_addr-network}
use baetyl_bacnet.Baetyl.Config.{Property, Job, Config}
use baetyl_bacnet.Baetyl.Slave.{
  Globals, Network, device_of, generate_slave, search_slave, known_slave, new_slave,
}
use baetyl_bacnet.Baetyl.Service.{Bacnet, infos_by_name, make_slaves, make_workers, new_bacnet}
use baetyl_bacnet.Baetyl.Setup.{Source, property_key, job_map, device_job, add_jobs, gen_config}
use baetyl_bacnet.Baetyl.Setup.Aligned.{
  slave_names, configured_names, AllPaired, gen_config-AllPaired,
}
use baetyl_bacnet.Baetyl.Setup.Keys.{property_key_injective}
use baetyl_bacnet.Tests.Calls.{thermostat}
use baetyl_bacnet.Tests.Worker.{room, one_device, slave_config, job, slave}

-- A network with the thermostat on it.
abbrev pub net : Network
net = record { connect = λ n address port. ok n; search_devices = λ n client. ok (thermostat ∷ []) }

abbrev pub fresh : Globals
fresh = record { client = none; devices = []; connects = 0; searches = 0 }

abbrev pub searched : Globals
searched = record { client = some 0; devices = thermostat ∷ []; connects = 1; searches = 1 }

made : new_slave net room slave_config fresh ≡ (ok slave, searched)
unfolding new_slave known_slave search_slave generate_slave device_of
made = refl

abbrev config : Config
config = record { slaves = slave_config ∷ []; jobs = job 4 ∷ [] }

abbrev service : Bacnet
service = record { ws = (100 ∷ [], record { job = job 4; slave = slave }) ∷ []; online = room ∷ [] }

started : new_bacnet net one_device config fresh ≡ (ok service, searched)
unfolding new_bacnet infos_by_name make_slaves make_workers lookup put same_text new_slave
    known_slave search_slave generate_slave device_of
started = refl

-- A source whose texts decode to one slave, job and property.
abbrev decoded : Property
decoded = record {
  id = [];
  name = [];
  kind = [];
  mode = [];
  bacnet_type = 2;
  bacnet_address = 18446744073709551615;
  application_tag_number = 4;
}

abbrev pub source : Source
source = record {
  driver_config = [];
  decode_slave = λ text s. ok slave_config;
  decode_job = λ text j. ok (record (job 4) { address_offset = 3 });
  decode_property = λ text p. ok decoded;
  set_defaults = λ cfg. ok cfg;
}

-- The offset of 3 makes the address wrap to 2.
abbrev pub generated_job : Job
generated_job = record (job 4) {
  address_offset = 3;
  properties =
      (50 ∷ 58 ∷ 50 ∷ [], record decoded { id = 49 ∷ []; name = 116 ∷ []; bacnet_address = 2 })
      ∷ [];
}

abbrev generated : Config
generated = record { slaves = slave_config ∷ []; jobs = generated_job ∷ [] }

generates : gen_config source one_device ≡ ok generated
unfolding gen_config add_jobs device_job job_map property_key format_uint digits put
generates = refl

gen_config-AllPaired_example :
    (cfg : Config) × (ok cfg ≡ ok generated)
    × AllPaired cfg.slaves cfg.jobs
    × (slave_names cfg.slaves ≡ configured_names one_device.get_all_devices)
gen_config-AllPaired_example = gen_config-AllPaired source one_device generated generates

abbrev kind : ℕ
kind = 2

abbrev number : ℕ
number = 17

property_key_injective_example : (kind ≡ kind) × (number ≡ number)
property_key_injective_example =
    property_key_injective kind number kind number (omega arith) (omega arith) (omega arith)
      (omega arith) refl

-- 192.168.1.20 in a network of 256 addresses.
broadcast_addr-network_example :
    broadcast_addr (network 3232235796 8) ≡ returns (ok (192 ∷ 168 ∷ 1 ∷ 255 ∷ []))
broadcast_addr-network_example = broadcast_addr-network 3232235796 8 (omega arith) (omega arith)

made_by_ip :
    new_client_by_ip none (some (network 3232235796 8) ∷ []) (192 ∷ 168 ∷ 1 ∷ 7 ∷ []) 0
    ≡ returns (
        ok (record {
          ip_address = 192 ∷ 168 ∷ 1 ∷ 7 ∷ [];
          broadcast_address = 192 ∷ 168 ∷ 1 ∷ 255 ∷ [];
          udp_port = 47808;
        }))
unfolding new_client_by_ip network_of contains broadcast_addr to4
made_by_ip = refl
