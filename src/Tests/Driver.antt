-- ===== src/Tests/Driver.antt =====
-- The service that main makes for one device, and the loop of its worker; and the names of constants.
use baetyl_bacnet.Common.{◌%◌, ◌≡◌, ◌≢◌, refl, List, [], ◌∷◌, none, some, All, arith, false}
use baetyl_bacnet.Common.Go.{ok, returns, panics}
use baetyl_bacnet.Common.Text.{same_text, format_uint, digits, bytes_of}
use baetyl_bacnet.Common.Dict.{lookup, put, Entries}
use baetyl_bacnet.Bacnet.Value.{float32}
use baetyl_bacnet.Dmp.Adapter.{named_by, get_mapping_name}
use baetyl_bacnet.Bacnet.Names.{piece_at, numbered, text_of}
use baetyl_bacnet.Bacnet.Names.Objects.{
  object_types, object_type_string, segmentation_supports, segmentation_support_string, priorities,
  priority_list_string,
}
use baetyl_bacnet.Bacnet.Names.Errors.{
  error_classes, error_class_string, error_codes, error_code_string,
}
use baetyl_bacnet.Bacnet.Names.Properties.{property_types, property_type_string}
use baetyl_bacnet.Bacnet.Names.Units.{units, unit_string}
use baetyl_bacnet.Bacip.Names.{
  functions, function_string, npdu_priorities, npdu_priority_string, strings_name_constants,
}
use baetyl_bacnet.Baetyl.Config.{is_zero, is_positive, object_of}
use baetyl_bacnet.Baetyl.Slave.{device_of, generate_slave, search_slave, known_slave, new_slave}
use baetyl_bacnet.Baetyl.Worker.{
  present_value, read_value, read_all, arguments, model_value, models, execute,
}
use baetyl_bacnet.Baetyl.Service.{Bacnet, infos_by_name, make_slaves, make_workers, new_bacnet}
use baetyl_bacnet.Baetyl.Service.Loop.{
  Loop, Wake, ticked, closed, wakes_of, is_none, working_loop, working, AllFresh, working-AllFresh,
}
use baetyl_bacnet.Baetyl.Setup.{Source, property_key, job_map, device_job, add_jobs, gen_config}
use baetyl_bacnet.Baetyl.Driver.{driver, fill_defaults}
use baetyl_bacnet.Baetyl.Driver.Serves.{IsWorkerOf, driver-IsWorkerOf}
use baetyl_bacnet.Tests.Setup.{net, fresh, searched, source, generated_job}
use baetyl_bacnet.Tests.Worker.{one_device, room, slave, parameters, bus, worker, executed}

abbrev filling : Source
filling = record source { set_defaults = λ cfg. ok (fill_defaults cfg) }

abbrev served : Bacnet
served = record {
  ws = (100 ∷ [], record { job = generated_job; slave = slave }) ∷ [];
  online = room ∷ [];
}

driven : driver filling net one_device fresh ≡ (ok served, searched)
unfolding driver gen_config add_jobs device_job job_map property_key format_uint digits new_bacnet
    infos_by_name make_slaves make_workers lookup put same_text new_slave known_slave search_slave
    generate_slave device_of is_zero
driven = refl

driver-IsWorkerOf_example : Entries (IsWorkerOf one_device.get_all_devices) served.ws
driver-IsWorkerOf_example =
    driver-IsWorkerOf filling net one_device fresh searched served ((λ a. a), tt) (λ cfg. refl)
      driven

abbrev later : List Wake
later = ticked 9 ∷ []

no_panic : All (λ n. execute parameters one_device bus n (worker 4) ≢ panics) (0 ∷ [])
no_panic = ((λ h. absurd (ground (arith, executed, h))), tt)

working-AllFresh_example :
    (l : Loop) × (working parameters one_device bus (worker 4) (wakes_of (0 ∷ []) (some later))
      ≡ returns l)
    × AllFresh parameters one_device bus (worker 4) (0 ∷ []) l.rounds
    × (l.running ≡ is_none (some later))
working-AllFresh_example =
    working-AllFresh parameters one_device bus (worker 4) 15 (0 ∷ []) (some later) (omega arith)
      refl no_panic

-- One round, and none after the channel was closed.
worked :
    working parameters one_device bus (worker 4) (ticked 0 ∷ closed ∷ later)
    ≡ returns (record {
      rounds = (none, some ((97 ∷ [], float32 1101791232) ∷ [])) ∷ [];
      running = false;
    })
unfolding working working_loop is_positive execute read_all read_value models model_value arguments
    get_mapping_name named_by same_text lookup put object_of
worked = refl

-- The unit 95, and a number that no constant has.
strings_name_constants_example :
    (object_type_string 95 ≡ returns (text_of "ObjectType" object_types 95))
    × (segmentation_support_string 95
        ≡ returns (text_of "SegmentationSupport" segmentation_supports 95))
    × (priority_list_string (95 % 256) ≡ returns (text_of "PriorityList" priorities (95 % 256)))
    × (error_class_string 95 ≡ returns (text_of "ErrorClass" error_classes 95))
    × (error_code_string 95 ≡ returns (text_of "ErrorCode" error_codes 95))
    × (property_type_string 95 ≡ returns (text_of "PropertyType" property_types 95))
    × (unit_string 95 ≡ returns (text_of "Unit" units 95))
    × (function_string 95 ≡ returns (text_of "Function" functions 95))
    × (npdu_priority_string 95 ≡ returns (text_of "NPDUPriority" npdu_priorities 95))
strings_name_constants_example = strings_name_constants 95

-- What the program reads is the property that its String method calls so.
present_value_name : property_type_string present_value ≡ returns (bytes_of "PresentValue")
unfolding property_type_string piece_at
present_value_name = refl

no_unit : unit_string 114 ≡ returns (bytes_of "Unit(114)")
unfolding unit_string numbered format_uint digits
no_unit = refl
