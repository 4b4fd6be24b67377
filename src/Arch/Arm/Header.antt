-- ===== src/Arch/Arm/Header.antt =====
-- The header of a Linux image: get_linux_header of src/arch/aarch64/init.rs.
use kvm_rust.Util.Binary.{read_le32, read_le64}
use kvm_rust.Base.{
  List, Outcome, err, if◌then◌else◌, length, ltb, ok, take, unexpected_eof, ℕ, ◌>>=◌,
}

-- The header of an image file: 64 bytes, or the file is too short.
pub record Arm64ImageHeader : Type 0 where
  pub code0 : ℕ
  pub code1 : ℕ
  pub text_offset : ℕ
  pub image_size : ℕ
  pub flags : ℕ
  pub res2 : ℕ
  pub res3 : ℕ
  pub res4 : ℕ
  pub magic : ℕ
  pub res5 : ℕ

unfoldable pub get_linux_header : List ℕ → Outcome Arm64ImageHeader
get_linux_header file =
    let buf = take 64 file in
    if ltb (length file) 64
    then err unexpected_eof
    else (read_le32 buf 0 >>= λ code0. read_le32 buf 4 >>= λ code1.
        read_le64 buf 8 >>= λ text_offset. read_le64 buf 16 >>= λ image_size.
        read_le64 buf 24 >>= λ flags. read_le64 buf 32 >>= λ res2. read_le64 buf 40 >>= λ res3.
        read_le64 buf 48 >>= λ res4. read_le32 buf 56 >>= λ magic. read_le32 buf 60 >>= λ res5.
        ok record {
          code0 = code0;
          code1 = code1;
          text_offset = text_offset;
          image_size = image_size;
          flags = flags;
          res2 = res2;
          res3 = res3;
          res4 = res4;
          magic = magic;
          res5 = res5;
        })
