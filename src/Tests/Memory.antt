-- ===== src/Tests/Memory.antt =====
-- Allocators to use the model of source/data_packet.hpp with: one that always has memory, and one that
-- never has.
use f1985gfw.Base.{
  sym, ap, ◌∙◌, none, some, ◌++◌, length, take, replicate, some-eq, none≢some, take-take,
  length-padded, length-replicate, take-append, true,
}
use f1985gfw.Packet.{Allocator}
use f1985gfw.Packet.Pack.{IsAmple}
use f1985gfw.Worker.State.{Env}

abbrev pub plain : Allocator
plain = record {
  malloc = λ n. some (replicate n 0);
  realloc = λ b n. some (take n (b ++ replicate n 0));
  malloc_size = λ n b e. ap length (sym (some-eq e)) ∙ length-replicate n 0;
  realloc_size = λ b n c e. ap length (sym (some-eq e)) ∙ length-padded 0 b n;
  realloc_keeps = λ b n c k e h g.
      ap (take k) (sym (some-eq e))
      ∙ take-take k n (b ++ replicate n 0) g
      ∙ take-append k b (replicate n 0) h;
}

pub plain-IsAmple : IsAmple plain
plain-IsAmple = record { creates = λ n e. cc; extends = λ b n e. cc }

abbrev pub barren : Allocator
barren = record {
  malloc = λ n. none;
  realloc = λ b n. none;
  malloc_size = λ n b e. absurd (none≢some e);
  realloc_size = λ b n c e. absurd (none≢some e);
  realloc_keeps = λ b n c k e h g. absurd (none≢some e);
}

-- Every write succeeds, and every text is an address.
abbrev pub easy : Env
easy = record { allocator = plain; writable = λ id bytes. true; is_address = λ text. true }
