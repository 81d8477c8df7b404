-- ===== src/Checks/DoctorRuns.antt =====
-- A run of the doctor.
use quackridge.Prelude.{true, false, none, some, [], ◌∷◌, ◌++◌}
use quackridge.Prelude.Text.{lit, text_eq}
use quackridge.Prelude.Int.{pos}
use quackridge.Errors.Defs.{foreign}
use quackridge.Errors.Result.{ok, err}
use quackridge.Json.{Value, string, object, array, end, item, done, field}
use quackridge.Config.Document.{Source, Document}
use quackridge.Control.{Response}
use quackridge.Service.Defs.{ready}
use quackridge.Doctor.{ConfigFiles, permissions, Stores}
use quackridge.Doctor.Bundle.{BundleFiles}
use quackridge.Doctor.Live.{Network, DoctorOptions}

abbrev source : Source
source = record {
  id = lit "1";
  name = lit "CRM";
  alias = lit "crm";
  kind = lit "postgres";
  database_type = [];
  enabled = true;
  credential_ref = lit "crm";
  options = lit "{}";
}

abbrev document : Document
document = record { version = pos 1; sources = source ∷ [] }

abbrev files : ConfigFiles
files = record {
  load = ok document;
  inspected = permissions 384;
  is_windows = false;
  octal = λ n. lit "0600";
  is_syntax_error = λ e. false;
}

abbrev bundle : BundleFiles
bundle = record {
  read_lines = λ t. err (foreign (lit "absent"));
  hash_of = λ t. err (foreign (lit "absent"));
  fields = λ t. [];
  is_hex = λ t. true;
  base = λ t. t;
  join = λ a b. a ++ b;
  is_syntax_error = λ e. false;
}

abbrev stores : Stores
stores = record {
  given = none;
  provider = [];
  system = ok (λ t. ok (lit "secret"));
  environment = λ t. err (foreign (lit "unset"));
}

abbrev ready_source : Value
ready_source = object (
    field (lit "id") (string (lit "1"))
      (field (lit "health") (string (lit "ready")) (field (lit "warnings") (array end) done)))

abbrev response : Response
response = record {
  version = 1;
  is_ok = true;
  status = some (record {
    state = ready;
    endpoint = lit "quack:127.0.0.1:9494";
    started_at = none;
    sources = [];
    last_error = [];
    capability_set = [];
  });
  error_code = none;
  message = [];
  pairing = none;
  configuration = none;
  diagnostics =
      some (object (field (lit "source_diagnostics") (array (item ready_source end)) done));
  version_info = none;
}

abbrev network : Network
network = record {
  call = λ a o. ok response;
  is_socket = λ a. false;
  split_host = λ t. some (lit "127.0.0.1");
  is_loopback_ip = λ t. text_eq t (lit "127.0.0.1");
}

abbrev options : DoctorOptions
options = record { config_path = lit "/c"; control_address = lit "/s"; extension_dir = [] }
