-- ===== src/Server/Reply/Read.antt =====
-- The answers to requests that read registers or bits.
use swift_lib_modbus.Prelude.{
  ℕ, ◌+◌, ◌-◌, ◌*◌, ◌%◌, ◌<◌, ◌≤◌, ◌≡◌, ◌≢◌, arith, Option, some, le→ltb, ap, ◌∙◌, inl, sym, refl,
}
use swift_lib_modbus.Memory.{Buf, update, write, IsBytes}
use swift_lib_modbus.Memory.Laws.{write_inside}
use swift_lib_modbus.Context.{Backend}
use swift_lib_modbus.Backend.{header_length, header_length-le, build_response_basis}
use swift_lib_modbus.Protocol.{Sft}
use swift_lib_modbus.Length.{byte_count}
use swift_lib_modbus.Server.Loops.{word_cells, word_at_inside, IsWords, put_registers-IsPut}
use swift_lib_modbus.Data.Bits.{bit_at}
use swift_lib_modbus.Server.IoStatus.Laws.{IsBits, bytes_for, response_io_status-IsPacked}
use swift_lib_modbus.Server.Header.{HasTid, HasTid-same, build_response_basis-IsHeader}
use swift_lib_modbus.Server.Mapping.{Mapping}
use swift_lib_modbus.Server.Reply.{
  Reply, response, put_registers, reply_read_registers, reply_read_bits,
}
use swift_lib_modbus.Server.Reply.Start.{request_quantity}

-- `result` is an answer for the slave and the function of `sft` that leaves the tables alone, says
-- `count` bytes, and has `length` bytes in all.
pub record IsReadAnswer (backend : Backend) (sft : Sft) (mb : Mapping) (rsp : Buf)
    (count length : ℕ) (result : Option Reply) : Type 0 where
  pub out : Buf
  pub returns : result ≡ some (response out length mb)
  pub same_cap : out.cap ≡ rsp.cap
  pub tid : HasTid backend sft out
  pub slave : out.cell (header_length backend - 1) ≡ sft.slave % 256
  pub function : out.cell (header_length backend) ≡ sft.function % 256
  pub count_byte : out.cell (header_length backend + 1) ≡ count

-- The data of the answer are the registers `tab[address]`, ....
pub record IsRegisterAnswer (backend : Backend) (sft : Sft) (mb : Mapping) (tab : Buf)
    (address nb : ℕ) (rsp : Buf) (result : Option Reply) : Type 0 where
  pub answer : IsReadAnswer backend sft mb rsp (2 * nb) (header_length backend + 2 + 2 * nb) result
  pub registers :
      (j : ℕ)
      → j < nb
      → word_cells answer.out (header_length backend + 2 + 2 * j) ≡ tab.cell (address + j)
  pub bytes : IsBytes rsp → IsBytes answer.out

elsewhere : (f : ℕ → ℕ) (i j v : ℕ) → i ≢ j → update f j v i ≡ f i
elsewhere f i j v ne = ground arith

in_place : (f : ℕ → ℕ) (j v : ℕ) → update f j v j ≡ v
in_place f j v = ground arith

-- The steps that build the answer: the header, the number of bytes, and the registers.
pub record IsBuiltFrom (backend : Backend) (sft : Sft) (tab : Buf) (address nb : ℕ) (rsp : Buf)
    : Type 0 where
  pub header : Buf
  pub counted : Buf
  pub out : Buf
  pub started : build_response_basis backend sft rsp ≡ some (header, header_length backend + 1)
  pub counts : write header (header_length backend + 1) (nb * 2) ≡ some counted
  pub fills :
      put_registers tab nb address counted (header_length backend + 1 + 1)
      ≡ some (out, header_length backend + 2 + 2 * nb)
  pub answers :
      (mb : Mapping) (result : Option Reply)
      → result ≡ some (response out (header_length backend + 2 + 2 * nb) mb)
      → IsRegisterAnswer backend sft mb tab address nb rsp result

module _ (backend : Backend) (sft : Sft) (address : ℕ) (rsp : Buf) where
  pub registers-IsBuiltFrom :
      (nb : ℕ) (tab : Buf)
      → IsWords tab
      → address + nb ≤ tab.cap
      → nb ≤ 125
      → rsp.cap ≡ 260
      → IsBuiltFrom backend sft tab address nb rsp
  registers-IsBuiltFrom nb tab words fits small room =
      let h : ℕ = header_length backend in
      let h_small = header_length-le backend in
      let hd = build_response_basis-IsHeader backend sft rsp (omega arith) in
      let hd_room : hd.out.cap ≡ 260 = hd.same_cap ∙ room in
      let counted : Buf = record hd.out { cell = update hd.out.cell (h + 1) (nb * 2 % 256) } in
      let put = put_registers-IsPut nb tab address counted (h + 1 + 1) words fits (omega arith) in
      let total : h + 1 + 1 + 2 * nb ≡ h + 2 + 2 * nb = omega arith in
      let before : (k : ℕ) → k < h + 1 → put.out.cell k ≡ hd.out.cell k = λ k p.
        put.outside k (inl (omega arith))
        ∙ elsewhere hd.out.cell k (h + 1) (nb * 2 % 256) (omega arith) in
      record {
        header = hd.out;
        counted = counted;
        out = put.out;
        started = hd.returns;
        counts = write_inside 256 hd.out (h + 1) (nb * 2) (omega arith);
        fills = put.returns ∙ ap (λ m. Option.some (put.out, m)) total;
        answers = λ mb result e. record {
          answer = record {
            out = put.out;
            returns = e;
            same_cap = put.same_cap ∙ hd.same_cap;
            tid = HasTid-same backend sft put.out hd.out (λ k p. before k (omega arith)) hd.tid;
            slave = before (h - 1) (omega arith) ∙ hd.slave;
            function = before h (omega arith) ∙ hd.function;
            count_byte =
                put.outside (h + 1) (inl (omega arith))
                ∙ in_place hd.out.cell (h + 1) (nb * 2 % 256)
                ∙ omega arith;
          };
          registers = λ j p.
              let place : h + 2 + 2 * j ≡ h + 1 + 1 + 2 * j = omega arith in
              rw place (put.inside j p);
          bytes = λ small k. ground (arith, put.bytes k, put.outside k, hd.small small k);
        };
      }

module _ (backend : Backend) (req : Buf) (n : ℕ) (mb : Mapping) (sft : Sft) (address : ℕ)
    (rsp : Buf) where
  abbrev quantity : ℕ
  quantity = request_quantity backend req

  pub reply_read_registers-IsRegisterAnswer :
      (nb_table : ℕ) (tab : Buf)
      → header_length backend + 5 ≤ req.cap
      → IsWords tab
      → tab.cap ≡ nb_table
      → address + quantity ≤ nb_table
      → quantity ≤ 125
      → rsp.cap ≡ 260
      → IsRegisterAnswer backend sft mb tab address quantity rsp
          (reply_read_registers backend req n mb sft address rsp nb_table tab)
  unfolding reply_read_registers
  reply_read_registers-IsRegisterAnswer nb_table tab present words cap_is fits small room =
      let b =
        registers-IsBuiltFrom backend sft address rsp quantity tab words (omega arith) small room in
      b.answers mb _ (
        rw
          (
            word_at_inside req (header_length backend + 3) (omega arith),
            le→ltb nb_table (address + quantity) fits,
            b.started,
          )
          (rw b.counts (rw b.fills refl)))

-- The number of bytes for a number of bits, rounded up.
pub byte_count-bytes_for : (n : ℕ) → byte_count n ≡ bytes_for n
byte_count-bytes_for n = ground arith

-- The data of the answer are the bits `tab[address]`, ..., the lowest bit of a byte first, with the
-- last byte filled up with zeros.
pub record IsBitAnswer (backend : Backend) (sft : Sft) (mb : Mapping) (tab : Buf) (address nb : ℕ)
    (rsp : Buf) (result : Option Reply) : Type 0 where
  pub answer :
      IsReadAnswer backend sft mb rsp
        (bytes_for nb)
        (header_length backend + 2 + bytes_for nb)
        result
  pub bits :
      (j : ℕ) → j < nb → bit_at answer.out (header_length backend + 2) j ≡ tab.cell (address + j)
  pub padding :
      (j : ℕ) → nb ≤ j → j < 8 * bytes_for nb → bit_at answer.out (header_length backend + 2) j ≡ 0
  pub bytes : IsBytes rsp → IsBytes answer.out

module _ (backend : Backend) (req : Buf) (n : ℕ) (mb : Mapping) (sft : Sft) (address : ℕ)
    (rsp : Buf) where
  pub reply_read_bits-IsBitAnswer :
      (nb_table : ℕ) (tab : Buf)
      → header_length backend + 5 ≤ req.cap
      → IsBits tab
      → tab.cap ≡ nb_table
      → address + request_quantity backend req ≤ nb_table
      → request_quantity backend req ≤ 2000
      → rsp.cap ≡ 260
      → IsBitAnswer backend sft mb tab address
          (request_quantity backend req)
          rsp
          (reply_read_bits backend req n mb sft address rsp nb_table tab)
  unfolding reply_read_bits
  reply_read_bits-IsBitAnswer nb_table tab present bits cap_is fits small room =
      let h : ℕ = header_length backend in
      let nb : ℕ = request_quantity backend req in
      let h_small = header_length-le backend in
      let hd = build_response_basis-IsHeader backend sft rsp (omega arith) in
      let hd_room : hd.out.cap ≡ 260 = hd.same_cap ∙ room in
      let counted : Buf = record hd.out {
        cell = update hd.out.cell (h + 1) (byte_count nb % 256);
      } in
      let packed =
        response_io_status-IsPacked address nb tab counted (h + 1 + 1) bits (omega arith)
          (omega arith) in
      let total : h + 1 + 1 + bytes_for (0 + nb) ≡ h + 2 + bytes_for nb = omega arith in
      let first : h + 2 ≡ h + 1 + 1 = omega arith in
      record {
        answer = record {
          out = packed.out;
          returns =
              rw
                (
                  word_at_inside req (h + 3) (omega arith),
                  le→ltb nb_table (address + nb) fits,
                  hd.returns,
                )
                (rw (write_inside 256 hd.out (h + 1) (byte_count nb) (omega arith))
                  (rw packed.returns (ap (λ m. some (response packed.out m mb)) total)));
          same_cap = packed.same_cap ∙ hd.same_cap;
          tid =
              HasTid-same backend sft packed.out hd.out
                (λ k p.
                  packed.outside k (inl (omega arith))
                  ∙ elsewhere hd.out.cell k (h + 1) (byte_count nb % 256) (omega arith))
                hd.tid;
          slave =
              packed.outside (h - 1) (inl (omega arith))
              ∙ elsewhere hd.out.cell (h - 1) (h + 1) (byte_count nb % 256) (omega arith)
              ∙ hd.slave;
          function =
              packed.outside h (inl (omega arith))
              ∙ elsewhere hd.out.cell h (h + 1) (byte_count nb % 256) (omega arith)
              ∙ hd.function;
          count_byte =
              packed.outside (h + 1) (inl (omega arith))
              ∙ in_place hd.out.cell (h + 1) (byte_count nb % 256)
              ∙ omega (arith, byte_count-bytes_for nb);
        };
        bits = λ j p.
            let place : 0 + j ≡ j = omega arith in
            rw first (ap (bit_at packed.out (h + 1 + 1)) (sym place) ∙ packed.inside j p);
        padding = λ j p q. rw first (packed.padding j (omega arith) (omega arith));
        bytes = λ small. packed.bytes (λ k. ground (arith, hd.small small k));
      }
