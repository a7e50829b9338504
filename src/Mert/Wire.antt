-- ===== src/Mert/Wire.antt =====
-- src/xdna_mert.c: the packed structs of the firmware messages. A response has the bytes that its
-- struct has in memory; a request is read from the payload at the offsets of its struct.
use xdna1_npu_emulator.Prelude.{
  ℕ, List, ◌++◌, le_bytes, u16_bytes, u32_bytes, u64_bytes, u8_at, u16_at, u32_at, u64_at,
}

pub record ProtocolVersionResp : Type 0 where
  pub status : ℕ
  pub major : ℕ
  pub minor : ℕ

pub record FirmwareVersionResp : Type 0 where
  pub status : ℕ
  pub major : ℕ
  pub minor : ℕ
  pub sub : ℕ
  pub build : ℕ

pub record AieVersionResp : Type 0 where
  pub status : ℕ
  pub major : ℕ
  pub minor : ℕ

pub record AieTileInfo : Type 0 where
  pub size : ℕ
  pub major : ℕ
  pub minor : ℕ
  pub cols : ℕ
  pub rows : ℕ
  pub core_rows : ℕ
  pub mem_rows : ℕ
  pub shim_rows : ℕ
  pub core_row_start : ℕ
  pub mem_row_start : ℕ
  pub shim_row_start : ℕ
  pub core_dma_channels : ℕ
  pub mem_dma_channels : ℕ
  pub shim_dma_channels : ℕ
  pub core_locks : ℕ
  pub mem_locks : ℕ
  pub shim_locks : ℕ
  pub core_events : ℕ
  pub mem_events : ℕ
  pub shim_events : ℕ
  pub reserved : ℕ

pub record AieTileInfoResp : Type 0 where
  pub status : ℕ
  pub info : AieTileInfo

pub record GetRuntimeCfgResp : Type 0 where
  pub status : ℕ
  pub value : ℕ

pub record CqInfo : Type 0 where
  pub head_addr : ℕ
  pub tail_addr : ℕ
  pub buf_addr : ℕ
  pub buf_size : ℕ

pub record CqPair : Type 0 where
  pub x2i_q : CqInfo
  pub i2x_q : CqInfo

pub record CreateCtxResp : Type 0 where
  pub status : ℕ
  pub context_id : ℕ
  pub msix_id : ℕ
  pub num_cq_pairs_allocated : ℕ
  pub reserved : ℕ
  pub cq_pair0 : CqPair
  pub cq_pair1 : CqPair

pub record ColumnInfoResp : Type 0 where
  pub status : ℕ
  pub size : ℕ

pub record TelemetryResp : Type 0 where
  pub major : ℕ
  pub minor : ℕ
  pub size : ℕ
  pub status : ℕ

abbrev pub protocol_version_bytes : ProtocolVersionResp → List ℕ
protocol_version_bytes r = u32_bytes r.status ++ u32_bytes r.major ++ u32_bytes r.minor

abbrev pub firmware_version_bytes : FirmwareVersionResp → List ℕ
firmware_version_bytes r =
    u32_bytes r.status
    ++ u32_bytes r.major
    ++ u32_bytes r.minor
    ++ u32_bytes r.sub
    ++ u32_bytes r.build

abbrev pub aie_version_bytes : AieVersionResp → List ℕ
aie_version_bytes r = u32_bytes r.status ++ u16_bytes r.major ++ u16_bytes r.minor

abbrev pub tile_info_bytes : AieTileInfo → List ℕ
tile_info_bytes r =
    u32_bytes r.size
    ++ u16_bytes r.major
    ++ u16_bytes r.minor
    ++ u16_bytes r.cols
    ++ u16_bytes r.rows
    ++ u16_bytes r.core_rows
    ++ u16_bytes r.mem_rows
    ++ u16_bytes r.shim_rows
    ++ u16_bytes r.core_row_start
    ++ u16_bytes r.mem_row_start
    ++ u16_bytes r.shim_row_start
    ++ u16_bytes r.core_dma_channels
    ++ u16_bytes r.mem_dma_channels
    ++ u16_bytes r.shim_dma_channels
    ++ u16_bytes r.core_locks
    ++ u16_bytes r.mem_locks
    ++ u16_bytes r.shim_locks
    ++ u16_bytes r.core_events
    ++ u16_bytes r.mem_events
    ++ u16_bytes r.shim_events
    ++ u16_bytes r.reserved

abbrev pub tile_info_resp_bytes : AieTileInfoResp → List ℕ
tile_info_resp_bytes r = u32_bytes r.status ++ tile_info_bytes r.info

abbrev pub runtime_cfg_bytes : GetRuntimeCfgResp → List ℕ
runtime_cfg_bytes r = u32_bytes r.status ++ u64_bytes r.value

abbrev pub cq_info_bytes : CqInfo → List ℕ
cq_info_bytes q =
    u32_bytes q.head_addr ++ u32_bytes q.tail_addr ++ u32_bytes q.buf_addr ++ u32_bytes q.buf_size

abbrev pub cq_pair_bytes : CqPair → List ℕ
cq_pair_bytes p = cq_info_bytes p.x2i_q ++ cq_info_bytes p.i2x_q

abbrev pub create_ctx_bytes : CreateCtxResp → List ℕ
create_ctx_bytes r =
    u32_bytes r.status
    ++ u32_bytes r.context_id
    ++ u16_bytes r.msix_id
    ++ le_bytes 1 r.num_cq_pairs_allocated
    ++ le_bytes 1 r.reserved
    ++ cq_pair_bytes r.cq_pair0
    ++ cq_pair_bytes r.cq_pair1

abbrev pub column_info_bytes : ColumnInfoResp → List ℕ
column_info_bytes r = u32_bytes r.status ++ u32_bytes r.size

abbrev pub telemetry_bytes : TelemetryResp → List ℕ
telemetry_bytes r = u32_bytes r.major ++ u32_bytes r.minor ++ u32_bytes r.size ++ u32_bytes r.status

pub record SetRuntimeCfgReq : Type 0 where
  pub type : ℕ
  pub value : ℕ

abbrev pub set_runtime_cfg_req : List ℕ → SetRuntimeCfgReq
set_runtime_cfg_req p = record { type = u32_at p 0; value = u64_at p 4 }

pub record CreateCtxReq : Type 0 where
  pub start_col : ℕ
  pub num_col : ℕ
  pub pasid : ℕ
  pub context_priority : ℕ

-- The fields that the firmware model reads, of a struct of 28 bytes.
abbrev pub create_ctx_req : List ℕ → CreateCtxReq
create_ctx_req p = record {
  start_col = u8_at p 4;
  num_col = u8_at p 5;
  pasid = u16_at p 10;
  context_priority = u32_at p 24;
}

pub record MapHostBufferReq : Type 0 where
  pub context_id : ℕ
  pub buf_addr : ℕ
  pub buf_size : ℕ

abbrev pub map_host_buffer_req : List ℕ → MapHostBufferReq
map_host_buffer_req p = record {
  context_id = u32_at p 0;
  buf_addr = u64_at p 4;
  buf_size = u64_at p 12;
}

pub record AsyncEventReq : Type 0 where
  pub buf_addr : ℕ
  pub buf_size : ℕ

abbrev pub async_event_req : List ℕ → AsyncEventReq
async_event_req p = record { buf_addr = u64_at p 0; buf_size = u32_at p 8 }

pub record ColumnInfoReq : Type 0 where
  pub dump_buff_addr : ℕ
  pub dump_buff_size : ℕ
  pub num_cols : ℕ
  pub aie_bitmap : ℕ

abbrev pub column_info_req : List ℕ → ColumnInfoReq
column_info_req p = record {
  dump_buff_addr = u64_at p 0;
  dump_buff_size = u32_at p 8;
  num_cols = u32_at p 12;
  aie_bitmap = u32_at p 16;
}
