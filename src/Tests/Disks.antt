-- ===== src/Tests/Disks.antt =====
-- Test data: a disk for the two files of the program, a printer and a reader of configurations,
-- and hashes of passwords, with what is relied on of them.
use rdesk.Prelude.{
  ℕ, zero, suc, ◌≡◌, refl, ap, sym, ◌∙◌, Bool, true, false, Option, none, some, [], ◌∷◌, ◌++◌,
  codes, arith, Text, text_eq, text_eq_refl, length, take, drop, take-append_self, drop-append_self,
  is_some, if◌then◌else◌,
}
use rdesk.Common.Config.{AppConfig, Json}
use rdesk.Common.Config.Storage.{IsJson}
use rdesk.Common.Disk.{Disk, IsDisk}
use rdesk.Common.Password.{Argon2}
use rdesk.Bridge.Settings.Kept.{IsArgon2}

-- A disk with one directory, for the two files that the program has in it.
pub data Place : Type 0 where
  home id_file config_file : Place

abbrev pub Files : Type 0
Files = Option Text × Option Text

abbrev pub content : Place → Files → Option Text
content home fs = none
content id_file fs = fs.0
content config_file fs = fs.1

abbrev pub is_there : Place → Files → Bool
is_there home fs = true
is_there id_file fs = is_some fs.0
is_there config_file fs = is_some fs.1

abbrev pub write_file : Place → Text → Files → Files × Bool
write_file home text fs = (fs, false)
write_file id_file text fs = ((some text, fs.1), true)
write_file config_file text fs = ((fs.0, some text), true)

abbrev pub make_dir : Place → Files → Files × Bool
make_dir home fs = (fs, true)
make_dir id_file fs = (fs, false)
make_dir config_file fs = (fs, false)

abbrev pub disk : Disk
disk = record {
  FileSystem = Files;
  Location = Place;
  data_dir = some home;
  config_dir = some home;
  join = λ dir name. if text_eq name (codes "device_id") then id_file else config_file;
  exists = is_there;
  create_dir_all = make_dir;
  read_to_string = content;
  write = write_file;
}

reads :
    (p : Place) (t : Text) (fs : Files)
    → (write_file p t fs).1 ≡ true
    → content p (write_file p t fs).0 ≡ some t
reads home t fs e = absurd (ground arith)
reads id_file t fs e = refl
reads config_file t fs e = refl

appears :
    (p : Place) (t : Text) (fs : Files)
    → (write_file p t fs).1 ≡ true
    → is_there p (write_file p t fs).0 ≡ true
appears home t fs e = refl
appears id_file t fs e = refl
appears config_file t fs e = refl

stays :
    (p q : Place) (t : Text) (fs : Files)
    → is_there q fs ≡ true
    → is_there q (write_file p t fs).0 ≡ true
stays home q t fs e = e
stays id_file home t fs e = refl
stays id_file id_file t fs e = refl
stays id_file config_file t fs e = e
stays config_file home t fs e = refl
stays config_file id_file t fs e = e
stays config_file config_file t fs e = refl

made_there :
    (p : Place) (fs : Files) → (make_dir p fs).1 ≡ true → is_there p (make_dir p fs).0 ≡ true
made_there home fs e = refl
made_there id_file fs e = absurd (ground arith)
made_there config_file fs e = absurd (ground arith)

pub disk-IsDisk : IsDisk disk
disk-IsDisk = record {
  read-write = reads;
  exists-write = appears;
  exists-write_other = stays;
  exists-create = made_there;
}

-- A text that tells the lengths of the fields, and whether there is a password.
abbrev pub print : AppConfig → Text
print c =
    length c.signaling_server
    ∷ length c.relay_server
    ∷ length c.device_id
    ∷ elim c.permanent_password [
      | none ↦ 0 ∷ (c.signaling_server ++ (c.relay_server ++ c.device_id))
      | some p ↦ 1 ∷ (c.signaling_server ++ (c.relay_server ++ (c.device_id ++ p)))
    ]

abbrev pub fields : ℕ → ℕ → ℕ → Option Text → Text → AppConfig
fields a b c permanent text = record {
  signaling_server = take a text;
  relay_server = take b (drop a text);
  device_id = take c (drop b (drop a text));
  permanent_password = permanent;
}

abbrev pub read_config : Text → Option AppConfig
read_config (a ∷ b ∷ c ∷ zero ∷ text) = some (fields a b c none text)
read_config (a ∷ b ∷ c ∷ suc n ∷ text) =
    some (fields a b c (some (drop c (drop b (drop a text)))) text)
read_config _ = none

abbrev pub json : Json
json = record { to_string_pretty = λ c. some (print c); from_str = read_config }

take_all : (xs : Text) → take (length xs) xs ≡ xs
take_all [] = refl
take_all (x ∷ xs) = ap (◌∷◌ x) (take_all xs)

read-print :
    (s r i : Text) (p : Option Text)
    → let c : AppConfig = record {
      signaling_server = s;
      relay_server = r;
      device_id = i;
      permanent_password = p;
    } in
      read_config (print c) ≡ some c
read-print s r i none =
    rw
      (
        take-append_self s (r ++ i),
        drop-append_self s (r ++ i),
        take-append_self r i,
        drop-append_self r i,
        take_all i,
      )
      refl
read-print s r i (some p) =
    rw
      (
        take-append_self s (r ++ (i ++ p)),
        drop-append_self s (r ++ (i ++ p)),
        take-append_self r (i ++ p),
        drop-append_self r (i ++ p),
        take-append_self i p,
        drop-append_self i p,
      )
      refl

reads_config :
    (c : AppConfig) (text : Text) → some (print c) ≡ some text → read_config text ≡ some c
reads_config c text e =
    let same : print c ≡ text = cc e in
    ap read_config (sym same)
    ∙ read-print c.signaling_server c.relay_server c.device_id c.permanent_password

pub json-IsJson : IsJson json
json-IsJson = record { from_str-to_string = reads_config }

-- Hashes that are the passwords themselves.
abbrev pub plain : Argon2
plain = record {
  PasswordHash = Text;
  hash_with_salt = λ password salt. some password;
  parse_hash = λ text. some text;
  verify = text_eq;
}

verifies :
    (password salt text : Text)
    → some password ≡ some text
    → (parsed : Text) × (some text ≡ some parsed) × (text_eq password parsed ≡ true)
verifies password salt text e =
    let same : password ≡ text = cc e in (text, refl, rw same (text_eq_refl text))

pub plain-IsArgon2 : IsArgon2 plain
plain-IsArgon2 = record { verify-hash = verifies }
