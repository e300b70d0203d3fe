-- ===== src/Redis/Memory.antt =====
-- A server that is a function from keys to entries, at which the laws hold.
use multi_tenant_file_delive.Prelude.{refl, true, false, Option, none, ◌==◌, text_eq, if◌then◌else◌}
use multi_tenant_file_delive.Text.{Text}
use multi_tenant_file_delive.Redis.{Redis, Entry, is_some, or_new, extended, aged}

abbrev Table : Type 0
Table = Text → Option Entry

abbrev write : Text → Option Entry → Table → Table
write k e table j = if j == k then e else table j

-- No key has an entry.
abbrev pub vacant : Table
vacant k = none

abbrev pub memory : Redis
memory = record {
  Server = Table;
  entry = λ j table. table j;
  set_nx_ex = λ k v ttl table. (
    if is_some (table k) then false else true,
    write k (or_new (table k) (record { value = v; left = ttl })) table,
  );
  del = λ k table. write k none table;
  expire = λ k ttl table. (is_some (table k), write k (extended ttl (table k)) table);
  elapse = λ d table k. aged d (table k);
  set-answer = λ k v ttl s h. refl;
  set-entry = λ k v ttl s j h. refl;
  del-entry = λ k s j. refl;
  expire-answer = λ k ttl s h. refl;
  expire-entry = λ k ttl s j h. refl;
  elapse-entry = λ d s j. refl;
}
